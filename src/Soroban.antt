-- ===== src/Soroban.antt =====
-- internal/soroban: the RPC client, contract values, and the invoker.
pub mod Types
pub mod ScVal
pub mod Address
pub mod Client
pub mod Invoker
pub mod DataKey
