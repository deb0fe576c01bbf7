-- ===== src/Scheduler/Results.antt =====
-- What a run of a scheduled task (internal/scheduler/scheduler.go) leaves behind.
use emby_go.Base.{
  ℕ, ◌≡◌, inl, inr, not, ◌&&◌, some, String, find, find-put, find-erase, ℕ_discrete, if◌then◌else◌,
  ◌==◌, arith, Option-cases,
}
use emby_go.Scheduler.Tasks.{
  Scheduler, ScheduledTask, RunOutcome, TaskStatus, is_running, release, record_result, end_run,
  status_of,
}

-- A row with the result of a run.
abbrev pub with_result : TaskStatus → String → ℕ → ScheduledTask → ScheduledTask
with_result status message now row = record row {
  last_run_at = now;
  last_status = status;
  last_message = message;
}

-- The row of a task after a run that ended at a time.
abbrev pub recorded : RunOutcome → ℕ → ScheduledTask → ScheduledTask
recorded RunOutcome.done now row = with_result TaskStatus.success "" now row
recorded (RunOutcome.busy message) now row = with_result TaskStatus.skipped message now row
recorded (RunOutcome.broken message) now row = with_result TaskStatus.failed message now row

module _ {Schedule : Type 0} where
  find-record :
      (id q now : ℕ) (status : TaskStatus) (message : String) (s : Scheduler Schedule)
      (row : ScheduledTask)
      → find ℕ_discrete q s.tasks ≡ some row
      → find ℕ_discrete q (record_result id status message now s).tasks
        ≡ some (if q == id then with_result status message now row else row)
  unfolding record_result
  find-record id q now status message s row h = elim (Option-cases (find ℕ_discrete id s.tasks)) [
    | inl e ↦ ground (arith, e)
    | inr (r, e) ↦
        ground (arith, e, find-put ℕ_discrete id q (with_result status message now r) s.tasks)
  ]

  running-record :
      (id now : ℕ) (status : TaskStatus) (message : String) (s : Scheduler Schedule)
      → (record_result id status message now s).running ≡ s.running
  unfolding record_result
  running-record id now status message s = ground arith

  -- The end of a run writes its time and its result into the row of the task and nothing else of it:
  -- success with no message if the runner returned no error, skipped with the message of a runner that
  -- was busy, failed with the message of any other error. It touches no other row; and the task can run
  -- again, while every other task is marked as before.
  pub end_run_lem :
      (id q now : ℕ) (outcome : RunOutcome) (s : Scheduler Schedule) (row : ScheduledTask)
      → find ℕ_discrete q s.tasks ≡ some row
      → (find ℕ_discrete q (end_run id outcome now s).tasks
          ≡ some (if q == id then recorded outcome now row else row))
        × (is_running q (end_run id outcome now s) ≡ not (q == id) && is_running q s)
  unfolding end_run release is_running status_of
  end_run_lem id q now RunOutcome.done s row h = ground (
    arith,
    find-record id q now TaskStatus.success "" s row h,
    running-record id now TaskStatus.success "" s,
    find-erase ℕ_discrete id q s.running,
  )
  end_run_lem id q now (RunOutcome.busy message) s row h = ground (
    arith,
    find-record id q now TaskStatus.skipped message s row h,
    running-record id now TaskStatus.skipped message s,
    find-erase ℕ_discrete id q s.running,
  )
  end_run_lem id q now (RunOutcome.broken message) s row h = ground (
    arith,
    find-record id q now TaskStatus.failed message s row h,
    running-record id now TaskStatus.failed message s,
    find-erase ℕ_discrete id q s.running,
  )
