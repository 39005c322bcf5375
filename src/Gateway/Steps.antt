-- ===== src/Gateway/Steps.antt =====
-- Each part of a transaction keeps the file and adds no event.
pub mod Clauses
pub mod Payments
pub mod Changes
