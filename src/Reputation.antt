-- ===== src/Reputation.antt =====
-- The Reputation service (services/reputation/src/reputation_service): its table and its rules.
pub mod Store
pub mod Rules
pub mod Requests
pub mod Validation
pub mod Rows
pub mod Sealed
pub mod Added
pub mod History
mod Tests
