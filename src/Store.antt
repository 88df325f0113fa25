-- ===== src/Store.antt =====
-- The Postgres database of the commerce core, and transactions over it.
pub mod Table
pub mod Models
pub mod Tx
pub mod Ensures
pub mod Rows
pub mod Inbox
pub mod Call
