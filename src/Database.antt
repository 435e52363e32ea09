-- ===== src/Database.antt =====
-- The durable copy of Control's state (crates/as-control/src/db.rs and crates/as-control/src/
-- schema.sql): the tables and their constraints, the transaction of a delta, and loading.
pub mod Tables
pub mod Statements
pub mod Apply
pub mod Load
pub mod Provisioners
pub mod Agreement
pub mod Changes
pub mod Restart
pub mod Sync
pub mod Diff
pub mod Cleaned
pub mod Life
pub mod Durable
