-- ===== src/Gateway.antt =====
-- The Database Gateway (services/db-gateway): the tables that all services keep in one SQLite file,
-- and the transactions that write them.
pub mod Sql
pub mod Schema
pub mod Statements
pub mod Writer
pub mod Tried
pub mod Steps
pub mod Saved
pub mod Methods
pub mod Writes
pub mod Quiet
pub mod Stream
pub mod Inversions
pub mod Released
pub mod PaidOnce
mod Tests
