-- ===== src/Handler.antt =====
-- internal/handler/market.go: the handlers of requests, and how errors become responses.
pub mod ErrorCode
pub mod ErrorMap
pub mod ChartPoints
pub mod Web
pub mod Forms
pub mod Trade
pub mod Views
pub mod Detail
pub mod Account
pub mod Writer
pub mod Routes
