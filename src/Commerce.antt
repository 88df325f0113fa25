-- ===== src/Commerce.antt =====
-- The commerce core as a whole: the API's operations and the workers' event handlers as steps of
-- one transition system over the shared database.
pub mod Steps
pub mod Stock
pub mod Histories
