-- ===== src/TaskRecords/Rows.antt =====
-- The table task_records and the statements on it (internal/store/task_records.go). A statement that
-- fails leaves the table to the database, and is not modelled.
use emby_go.Base.{
  ℕ, suc, Bool, true, false, [], ◌∷◌, Option, none, some, String, Table, find, put, keep,
  ℕ_discrete, ltb, if◌then◌else◌, string_discrete, ite,
}

-- The text of the status column, with the two that a restart looks for.
pub data RecordStatus : Type 0 where
  queued running interrupted : RecordStatus
  ended : String → RecordStatus

pub record TaskRecord : Type 0 where
  pub kind : String
  pub status : RecordStatus
  pub library_id : ℕ
  pub mode : String
  pub allow_empty : Bool
  pub created_at : String
  pub started_at : String
  pub finished_at : String
  pub error : Option String
  pub result_json : String

abbrev pub Records : Type 0
Records = Table ℕ TaskRecord

abbrev pub task_record_retention : ℕ
task_record_retention = 500

abbrev pub restart_message : String
restart_message = "进程重启，任务执行状态丢失"

-- The number of rows with a greater id.
unfoldable pub newer : ℕ → Records → ℕ
newer id [] = 0
newer id ((j, r) ∷ t) = let rest = newer id t in if ltb id j then suc rest else rest

-- `PruneTaskRecords`: the rows among the last `n` by id stay.
unfoldable pub prune : ℕ → Records → Records
unfolding newer
prune n t = keep ℕ_discrete (λ (id : ℕ) (r : TaskRecord). ltb (newer id t) n) t

-- `UpsertTaskRecord`
unfoldable pub upsert : ℕ → TaskRecord → Records → Records
unfolding prune
upsert id r t = prune task_record_retention (put ℕ_discrete id r t)

-- An UPDATE of the row of an id; no row, no change.
unfoldable pub update : ℕ → (TaskRecord → TaskRecord) → Records → Records
update id f t = elim (find ℕ_discrete id t) [ none ↦ t | some r ↦ put ℕ_discrete id (f r) t ]

-- `FinishTaskRecord`
unfoldable pub finish : ℕ → RecordStatus → String → Option String → String → Records → Records
unfolding update
finish id status finished_at error result_json = update id (λ (r : TaskRecord). record r {
  status = status;
  finished_at = finished_at;
  error = error;
  result_json = result_json;
})

-- `SetTaskRecordStarted`
unfoldable pub set_started : ℕ → String → Records → Records
unfolding update
set_started id started_at =
    update id
      (λ (r : TaskRecord). record r { status = RecordStatus.running; started_at = started_at })

unfoldable pub is_unfinished : RecordStatus → Bool
is_unfinished RecordStatus.queued = true
is_unfinished RecordStatus.running = true
is_unfinished RecordStatus.interrupted = false
is_unfinished (RecordStatus.ended s) = false

-- The row of a task that the restart ended; an error that is there stays.
unfoldable pub interrupt : String → TaskRecord → TaskRecord
interrupt finished_at r = record r {
  status = RecordStatus.interrupted;
  finished_at = finished_at;
  error = elim r.error [ none ↦ some restart_message | some e ↦ some e ];
}

-- `MarkInterruptedTaskRecords`, with the number of rows that it changed.
unfoldable pub mark_interrupted : String → Records → Records × ℕ
unfolding is_unfinished interrupt
mark_interrupted finished_at [] = ([], 0)
mark_interrupted finished_at ((id, r) ∷ t) =
    let (u, n) = mark_interrupted finished_at t in
    if is_unfinished r.status then ((id, interrupt finished_at r) ∷ u, suc n) else ((id, r) ∷ u, n)

-- `TaskRecordByID`
unfoldable pub task_record_by_id : ℕ → Records → Option TaskRecord
task_record_by_id = find ℕ_discrete

-- `MaxTaskRecordID`
unfoldable pub max_task_record_id : Records → ℕ
max_task_record_id [] = 0
max_task_record_id ((id, r) ∷ t) =
    let rest = max_task_record_id t in if ltb rest id then id else rest

-- `LatestTaskRecordOfType`: the row of a type with the greatest id.
unfoldable pub latest_of_type : String → Records → Option (ℕ × TaskRecord)
latest_of_type kind [] = none
latest_of_type kind ((id, r) ∷ t) =
    let rest = latest_of_type kind t in
    ite (string_discrete r.kind kind)
      (elim rest [
        | none ↦ some (id, r)
        | some (j, q) ↦ if ltb j id then some (id, r) else some (j, q)
      ])
      rest
