-- ===== src/Store.antt =====
-- internal/store/postgres: the order tables of the database, and the store's operations on them.
pub mod Tables
pub mod Inserts
pub mod Updates
pub mod Rows
pub mod Validity
pub mod Steps
pub mod Tagged
pub mod Race
pub mod Addresses
pub mod Pool
pub mod Holders
pub mod Assigned
