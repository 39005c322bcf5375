-- ===== src/Gateway/Writer.antt =====
-- The methods of `DbWriter` (services/db-gateway/src/db_gateway_service/services/db_writer.py), by the
-- service that calls them. A request's fields have the types that their columns have.
pub mod Handlers
pub mod Agents
pub mod Accounts
pub mod Escrows
pub mod Tasks
pub mod Feedback
pub mod Claims
