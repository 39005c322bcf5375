-- ===== src/Identity.antt =====
-- The Identity service (services/identity/src/identity_service): the agents, their keys, and the
-- checks of their signatures.
pub mod Store
pub mod Registry
pub mod Requests
pub mod Agents
pub mod Signers
pub mod History
mod Tests
