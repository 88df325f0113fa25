-- ===== src/Orders.antt =====
-- internal/http/order: orders, their stock reservations and their payments.
pub mod Stock
pub mod Create
pub mod Change
pub mod Queries
pub mod Release
pub mod Units
pub mod Holding
pub mod StockRules
pub mod Conserve
pub mod Stocking
pub mod Balance
pub mod Frame
pub mod Rules
pub mod Moves
pub mod Payments
pub mod Charged
pub mod Evolution
pub mod Service
pub mod Handler
pub mod Replay
pub mod Returns
pub mod Paying
