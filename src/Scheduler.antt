-- ===== src/Scheduler.antt =====
-- internal/scheduler/scheduler.go: the scheduled tasks. `Tasks` is the code, `Single` that no task runs
-- twice at once, `Loaded` what is scheduled after a reload, `Results` what a run leaves behind.
pub mod Tasks
pub mod Single
pub mod Loaded
pub mod Results
mod Tests
