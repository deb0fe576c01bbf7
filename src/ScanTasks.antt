-- ===== src/ScanTasks.antt =====
-- internal/server/scan_tasks.go: the scans that run in the background. `Registry` is the table of tasks
-- with the keys of repeated requests, `Requests` the submission, the run and the status of a task.
-- `Room` is about evictions, `Replay` about repeated requests, `Bounds` about any sequence of calls.
pub mod Registry
pub mod Requests
pub mod Room
pub mod Calls
pub mod Replay
pub mod Keeps
pub mod Repeated
pub mod Bounds
mod Tests
