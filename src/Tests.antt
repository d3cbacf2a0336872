-- ===== src/Tests.antt =====
-- The theorems at concrete inputs.
mod Soroban
mod Stellar
mod Service
mod Site
mod Parts
mod Handler
mod Content
mod Closing
mod Market
