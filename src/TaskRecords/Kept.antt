-- ===== src/TaskRecords/Kept.antt =====
-- What is found in task_records after a task is registered and after a restart
-- (internal/store/task_records.go).
use emby_go.Base.{
  ℕ, ◌≤◌, ◌≡◌, ◌≢◌, refl, inl, inr, false, [], ◌∷◌, none, some, String, find, put, find-put,
  find-keep, filter_option, ℕ_discrete, ltb, if◌then◌else◌, ite, arith, Option-cases,
}
use emby_go.TaskRecords.Rows.{
  RecordStatus, TaskRecord, Records, newer, prune, upsert, is_unfinished, interrupt,
  mark_interrupted, task_record_by_id, max_task_record_id, task_record_retention,
}

newer-put : (id : ℕ) (r : TaskRecord) (t : Records) → newer id (put ℕ_discrete id r t) ≡ newer id t
unfolding newer put
newer-put id r [] = ground arith
newer-put id r ((j, q) ∷ t) = ground (arith, newer-put id r t)

newer-max : (id : ℕ) (t : Records) → max_task_record_id t ≤ id → newer id t ≡ 0
unfolding newer max_task_record_id
newer-max id [] h = refl
newer-max id ((j, r) ∷ t) h = ground (arith, newer-max id t)

find-prune :
    (n q : ℕ) (t : Records)
    → find ℕ_discrete q (prune n t) ≡ (if ltb (newer q t) n then find ℕ_discrete q t else none)
unfolding prune filter_option
find-prune n q t =
    let kept = find-keep ℕ_discrete (λ (id : ℕ) (r : TaskRecord). ltb (newer id t) n) q t in
    elim (Option-cases (find ℕ_discrete q t)) [
      | inl e ↦ ground (arith, kept, e)
      | inr (r, e) ↦ ground (arith, kept, e)
    ]

-- A task that is registered under an id that is not below an id of the table is found at once, as it
-- was registered. Any other task is found as before, unless 500 newer ones are there.
pub upsert_lem :
    (id q : ℕ) (r : TaskRecord) (t : Records)
    → max_task_record_id t ≤ id
    → (task_record_by_id q (upsert id r t) ≡ (
        if ltb (newer q (put ℕ_discrete id r t)) task_record_retention
        then ite (ℕ_discrete id q) (some r) (task_record_by_id q t)
        else none))
      × (task_record_by_id id (upsert id r t) ≡ some r)
unfolding upsert task_record_by_id
upsert_lem id q r t h =
    let stored = put ℕ_discrete id r t in
    ground (
      arith,
      find-prune task_record_retention q stored,
      find-prune task_record_retention id stored,
      find-put ℕ_discrete id q r t,
      find-put ℕ_discrete id id r t,
      newer-put id r t,
      newer-max id t h,
    )

find-mark :
    (q : ℕ) (now : String) (t : Records)
    → find ℕ_discrete q (mark_interrupted now t).0 ≡ elim (find ℕ_discrete q t) [
      | none ↦ none
      | some r ↦ some (if is_unfinished r.status then interrupt now r else r)
    ]
unfolding find mark_interrupted
find-mark q now [] = refl
find-mark q now ((j, r) ∷ t) = ground (arith, find-mark q now t)

-- A row that a restart ends.
abbrev pub ended_by_restart : String → TaskRecord → TaskRecord
ended_by_restart now r = record r {
  status = RecordStatus.interrupted;
  finished_at = now;
  error = elim r.error [ none ↦ some "进程重启，任务执行状态丢失" | some e ↦ some e ];
}

interrupted_ends : (now : String) (r : TaskRecord) → is_unfinished (interrupt now r).status ≡ false
unfolding interrupt is_unfinished
interrupted_ends now r = refl

mark_again :
    (now later : String) (t : Records) → (mark_interrupted later (mark_interrupted now t).0).1 ≡ 0
unfolding mark_interrupted
mark_again now later [] = refl
mark_again now later ((j, r) ∷ t) = ground (arith, mark_again now later t, interrupted_ends now r)

-- The row of a task after a restart: one that was queued or running is interrupted.
abbrev pub after_restart : String → RecordStatus → TaskRecord → TaskRecord
after_restart now RecordStatus.queued r = ended_by_restart now r
after_restart now RecordStatus.running r = ended_by_restart now r
after_restart now RecordStatus.interrupted r = r
after_restart now (RecordStatus.ended s) r = r

marked :
    (now : String) (s : RecordStatus) (r : TaskRecord)
    → r.status ≡ s
    → ((if is_unfinished r.status then interrupt now r else r) ≡ after_restart now s r)
      × (after_restart now s r).status ≢ RecordStatus.queued
      × (after_restart now s r).status ≢ RecordStatus.running
unfolding is_unfinished interrupt
marked now RecordStatus.queued r e = (ground (arith, e), (λ h. cc), (λ h. cc))
marked now RecordStatus.running r e = (ground (arith, e), (λ h. cc), (λ h. cc))
marked now RecordStatus.interrupted r e = (ground (arith, e), (λ h. cc), (λ h. cc))
marked now (RecordStatus.ended s) r e = (ground (arith, e), (λ h. cc), (λ h. cc))

-- After a restart a task on record that was queued or running is interrupted, with the time of the
-- restart, and with a message about it as its error unless it has one; nothing else of its row changes,
-- and the row of any other task stays as it is. So no task on record is queued or running, and a second
-- pass finds none.
pub restart_lem :
    (now later : String) (q : ℕ) (r : TaskRecord) (t : Records)
    → task_record_by_id q t ≡ some r
    → (task_record_by_id q (mark_interrupted now t).0 ≡ some (after_restart now r.status r))
      × (after_restart now r.status r).status ≢ RecordStatus.queued
      × (after_restart now r.status r).status ≢ RecordStatus.running
      × ((mark_interrupted later (mark_interrupted now t).0).1 ≡ 0)
unfolding task_record_by_id
restart_lem now later q r t h =
    let (row, queued, running) = marked now r.status r refl in
    (ground (arith, find-mark q now t, row), queued, running, mark_again now later t)
