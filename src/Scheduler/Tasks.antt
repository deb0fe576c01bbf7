-- ===== src/Scheduler/Tasks.antt =====
-- The scheduler (internal/scheduler/scheduler.go) with the rows of scheduled_tasks that it reads and
-- writes. Times are seconds.
use emby_go.Base.{
  ℕ, zero, suc, Bool, true, false, List, [], ◌∷◌, Option, none, some, String, Table, find, put,
  erase, ℕ_discrete, ◌==◌, if◌then◌else◌,
}

pub data TaskStatus : Type 0 where
  never success failed skipped : TaskStatus

-- A row of scheduled_tasks, under its id.
pub record ScheduledTask : Type 0 where
  pub name : String
  pub kind : String
  pub cron : String
  pub params : String
  pub enabled : Bool
  pub last_run_at : ℕ
  pub last_status : TaskStatus
  pub last_message : String

-- What a `Runner` returns: no error, ErrBusy, or another error with its text.
pub data RunOutcome : Type 0 where
  done : RunOutcome
  busy : String → RunOutcome
  broken : String → RunOutcome

unfoldable pub status_of : RunOutcome → TaskStatus × String
status_of RunOutcome.done = (TaskStatus.success, "")
status_of (RunOutcome.busy message) = (TaskStatus.skipped, message)
status_of (RunOutcome.broken message) = (TaskStatus.failed, message)

pub data RunNowError : Type 0 where
  no_task bad_cron already_running : RunNowError

abbrev pub skipped_message : String
skipped_message = "同一任务上一轮仍在执行，本次跳过"

-- A schedule is what the cron library parses an expression to.
pub record Scheduler (Schedule : Type 0) : Type 0 where
  pub tasks : Table ℕ ScheduledTask
  pub schedules : Table ℕ Schedule
  pub running : Table ℕ Bool

module _ {Schedule : Type 0} where
  -- `s.running[id]`, which is false for an id that is not in the map.
  unfoldable pub is_running : ℕ → Scheduler Schedule → Bool
  is_running id s = elim (find ℕ_discrete id s.running) [ none ↦ false | some b ↦ b ]

  unfoldable pub acquire : ℕ → Scheduler Schedule → Scheduler Schedule × Bool
  unfolding is_running
  acquire id s =
      if is_running id s
      then (s, false)
      else (record s { running = put ℕ_discrete id true s.running }, true)

  unfoldable pub release : ℕ → Scheduler Schedule → Scheduler Schedule
  release id s = record s { running = erase ℕ_discrete id s.running }

  -- `RecordScheduledResult`; an UPDATE of a row that is not there changes nothing.
  unfoldable pub record_result :
      ℕ → TaskStatus → String → ℕ → Scheduler Schedule → Scheduler Schedule
  record_result id status message now s = elim (find ℕ_discrete id s.tasks) [
    | none ↦ s
    | some row ↦
        let written = record row {
          last_run_at = now;
          last_status = status;
          last_message = message;
        } in
        record s { tasks = put ℕ_discrete id written s.tasks }
  ]

  -- `fire` up to the call of the runner: whether the run begins.
  unfoldable pub fire : ℕ → ℕ → Scheduler Schedule → Scheduler Schedule × Bool
  fire id now s =
      let (t, ok) = acquire id s in
      if ok then (t, true) else (record_result id TaskStatus.skipped skipped_message now s, false)

  -- The end of a run: `fireLocked` writes the result, then the lock is released.
  unfoldable pub end_run : ℕ → RunOutcome → ℕ → Scheduler Schedule → Scheduler Schedule
  unfolding status_of
  end_run id outcome now s =
      let (status, message) = status_of outcome in
      release id (record_result id status message now s)

  -- The parser of the cron library.
  module _ (parse : String → Option Schedule) where
    -- `RunNow` up to the call of the runner: an error, or the run begins.
    unfoldable pub run_now : ℕ → Scheduler Schedule → Scheduler Schedule × Option RunNowError
    run_now id s = elim (find ℕ_discrete id s.tasks) [
      | none ↦ (s, some RunNowError.no_task)
      | some row ↦ elim (parse row.cron) [
        | none ↦ (s, some RunNowError.bad_cron)
        | some _ ↦
            let (t, ok) = acquire id s in
            if ok then (t, none) else (s, some RunNowError.already_running)
      ]
    ]

    -- `registerLocked` for a row that is enabled; an expression that does not parse is passed over.
    unfoldable pub register : ℕ → ScheduledTask → Table ℕ Schedule → Table ℕ Schedule
    register id row t =
        if row.enabled
        then elim (parse row.cron) [ none ↦ t | some schedule ↦ put ℕ_discrete id schedule t ]
        else t

    unfoldable pub register_all : Table ℕ ScheduledTask → Table ℕ Schedule → Table ℕ Schedule
    unfolding register
    register_all [] t = t
    register_all ((id, row) ∷ rows) t = register_all rows (register id row t)

    unfoldable pub reload : Scheduler Schedule → Scheduler Schedule
    unfolding register_all
    reload s = record s { schedules = register_all s.tasks [] }

  -- The calendar of the cron library.
  module _ (next_time : Schedule → ℕ → ℕ) where
    -- `Next`, with none for the zero time.
    unfoldable pub next : ℕ → ℕ → Scheduler Schedule → Option ℕ
    next id now s = elim (find ℕ_discrete id s.schedules) [
      | none ↦ none
      | some schedule ↦ some (next_time schedule now)
    ]

    unfoldable pub upcoming : Schedule → ℕ → ℕ → List ℕ
    upcoming schedule zero now = []
    upcoming schedule (suc n) now =
        next_time schedule now ∷ upcoming schedule n (next_time schedule now)

    -- `Preview`; 0 stands for every count that is not positive.
    unfoldable pub preview : (String → Option Schedule) → String → ℕ → ℕ → Option (List ℕ)
    unfolding upcoming
    preview parse expr n now = elim (parse expr) [
      | none ↦ none
      | some schedule ↦ some (upcoming schedule (if n == 0 then 5 else n) now)
    ]
