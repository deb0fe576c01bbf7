-- ===== src/ScanTasks/Requests.antt =====
-- The submission of a scan, its run in the background and the question for its status
-- (internal/server/scan_tasks.go). What the scan returns, the length of a text in bytes, the admission
-- of the administrator and of a worker, and the new task id are arguments.
use emby_go.Base.{
  ℕ, Bool, not, none, some, String, find, ltb, if◌then◌else◌, ite, ℕ_discrete, string_discrete,
}
use emby_go.TaskRecords.Rows.{RecordStatus, TaskRecord, task_record_by_id}
use emby_go.ScanTasks.Registry.{
  AsyncScanTask, ScanTasks, Submission, RegisterError, Registered, register_scan_task,
  replay_scan_task, finish_scan_task,
}

abbrev pub max_idempotency_key : ℕ
max_idempotency_key = 128

-- The answers of `adminSubmitScan`: 202 with the task (new, or again), 400, 409, 429 and 503; the two
-- refusals that answer by themselves are `not_admitted` and `no_worker`.
pub data Answer : Type 0 where
  accepted again : ℕ → AsyncScanTask → Answer
  key_too_long idempotency_conflict busy task_capacity server_shutting_down : Answer
  not_admitted no_worker : Answer

unfoldable pub answer_of : Registered → Answer
answer_of (Registered.created id t) = Answer.accepted id t
answer_of (Registered.replayed id t) = Answer.again id t
answer_of (Registered.refused RegisterError.shutting_down) = Answer.server_shutting_down
answer_of (Registered.refused RegisterError.idem_conflict) = Answer.idempotency_conflict
answer_of (Registered.refused RegisterError.scan_busy) = Answer.busy
answer_of (Registered.refused RegisterError.capacity) = Answer.task_capacity
answer_of (Registered.refused RegisterError.not_stored) = Answer.task_capacity

-- What `adminSubmitScan` does not decide itself.
pub record Surroundings : Type 0 where
  pub admitted : Bool
  pub worker : Bool
  pub shutting : Bool
  pub scanning : Bool
  pub stored : Bool

-- The part after the replay check.
unfoldable pub submit_new : Surroundings → ℕ → Submission → ScanTasks → ScanTasks × Answer
unfolding register_scan_task answer_of
submit_new w now b s =
    if not w.admitted
    then (s, Answer.not_admitted)
    else if not w.worker
    then (s, Answer.no_worker)
    else let (t, r) = register_scan_task w.shutting w.scanning w.stored now b s in (t, answer_of r)

-- `adminSubmitScan`; the key of the submission is trimmed already.
unfoldable pub admin_submit_scan :
    (String → ℕ) → Surroundings → ℕ → Submission → ScanTasks → ScanTasks × Answer
unfolding replay_scan_task submit_new
admin_submit_scan byte_length w now b s =
    ite (string_discrete b.idem_key "") (submit_new w now b s) (
      if ltb max_idempotency_key (byte_length b.idem_key)
      then (s, Answer.key_too_long)
      else let (t, found) = replay_scan_task b.idem_key now s in
        elim found [
          | none ↦ submit_new w now b t
          | some (id, task) ↦ (
            t,
            ite (string_discrete task.idem_digest b.digest) (Answer.again id task)
                Answer.idempotency_conflict,
          )
        ])

-- How the scan ended; a failure has the result of the groups that were committed.
pub data RunOutcome : Type 0 where
  done : String → RunOutcome
  scan_busy : String → RunOutcome
  failed : String → String → RunOutcome

-- The end of `runAsyncScan`.
unfoldable pub end_run : ℕ → String → RunOutcome → Bool → ScanTasks → ScanTasks
unfolding finish_scan_task
end_run id now (RunOutcome.done r) stored s =
    finish_scan_task id (RecordStatus.ended "succeeded") now (some r) none stored s
end_run id now (RunOutcome.scan_busy e) stored s =
    finish_scan_task id (RecordStatus.ended "skipped") now none (some e) stored s
end_run id now (RunOutcome.failed r e) stored s =
    finish_scan_task id (RecordStatus.ended "failed") now (some r) (some e) stored s

-- `adminScanTaskStatus`: the task in memory, or its summary.
pub data StatusAnswer : Type 0 where
  in_memory : AsyncScanTask → StatusAnswer
  summary : TaskRecord → StatusAnswer
  not_found : StatusAnswer

unfoldable pub scan_task_status : ℕ → ScanTasks → StatusAnswer
unfolding task_record_by_id
scan_task_status id s = elim (find ℕ_discrete id s.tasks) [
  | some t ↦ StatusAnswer.in_memory t
  | none ↦ elim (task_record_by_id id s.records) [
    | none ↦ StatusAnswer.not_found
    | some r ↦ StatusAnswer.summary r
  ]
]
