-- ===== src/Stellar.antt =====
-- internal/stellar: the Horizon client and the transaction builder.
pub mod Horizon
pub mod Params
pub mod Builder
pub mod Queries
pub mod Records
