-- ===== src/Workers.antt =====
-- cmd/worker and internal/worker: the consumers of the event stream.
pub mod Payload
pub mod Payment
pub mod Inventory
pub mod Audit
pub mod Recorded
pub mod Dispatch
pub mod Conserve
pub mod Invariants
pub mod Claims
pub mod Redelivery
pub mod Committed
pub mod Charging
