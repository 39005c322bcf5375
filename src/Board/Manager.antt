-- ===== src/Board/Manager.antt =====
-- `TaskManager` (services/task-board/src/task_board_service/services/task_manager.py).
pub mod Requests
pub mod Replies
pub mod NewTask
pub mod Lifecycle
pub mod Creation
pub mod Effects
pub mod Advances
pub mod History
