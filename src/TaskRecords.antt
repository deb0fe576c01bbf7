-- ===== src/TaskRecords.antt =====
-- internal/store/task_records.go: the summaries of background tasks. `Rows` is the table with its
-- statements, `Kept` what is found after a task is registered and after a restart.
pub mod Rows
pub mod Kept
mod Tests
