-- ===== src/Domain.antt =====
-- internal/domain: the vocabulary of the commerce core (statuses, events, errors).
pub mod Errors
pub mod Calls
pub mod Order
pub mod Graph
