-- ===== src/Ui.antt =====
-- The user interface (services/ui): the quarters of its reports.
pub mod Quarter
mod Tests
