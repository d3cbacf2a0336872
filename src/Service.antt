-- ===== src/Service.antt =====
-- internal/service: market operations, the factory, and trade events.
pub mod Amount
pub mod Requests
pub mod Reading
pub mod Quotes
pub mod Market
pub mod Events
pub mod Factory
pub mod Deploy
pub mod States
pub mod Create
