-- ===== src/Board.antt =====
-- The Task Board (services/task-board): task store, deadlines, escrow coordination and the task
-- lifecycle of `TaskManager`.
pub mod Types
pub mod Store
pub mod Client
pub mod Tokens
pub mod Deadlines
pub mod Manager
pub mod Assets
mod Tests
