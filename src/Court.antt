-- ===== src/Court.antt =====
-- The Court (services/court): disputes, their rulings by judges, and the requests of its routers.
pub mod Types
pub mod Store
pub mod Panel
pub mod Ruling
pub mod Service
pub mod Requests
pub mod Sound
pub mod Outcomes
pub mod Served
pub mod History
pub mod Refinement
pub mod Texts
pub mod Interop
mod Tests
