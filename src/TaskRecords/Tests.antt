-- ===== src/TaskRecords/Tests.antt =====
-- The summaries of internal/store/task_records.go with two concrete tasks.
use emby_go.Base.{
  ◌≢◌, ◌≤◌, ◌≡◌, refl, false, [], ◌∷◌, none, some, put, find, ℕ_discrete, ltb, if◌then◌else◌, ite,
  arith,
}
use emby_go.TaskRecords.Rows.{
  RecordStatus, TaskRecord, Records, newer, upsert, mark_interrupted, task_record_by_id,
  max_task_record_id, task_record_retention,
}
use emby_go.TaskRecords.Kept.{ended_by_restart, upsert_lem, restart_lem}

abbrev scan_record : TaskRecord
scan_record = record {
  kind = "scan";
  status = RecordStatus.running;
  library_id = 1;
  mode = "";
  allow_empty = false;
  created_at = "1";
  started_at = "2";
  finished_at = "";
  error = none;
  result_json = "";
}

abbrev backup_record : TaskRecord
backup_record = record scan_record { kind = "backup"; status = RecordStatus.ended "success" }

abbrev two_records : Records
two_records = (4, scan_record) ∷ (7, backup_record) ∷ []

highest : max_task_record_id two_records ≤ 8
unfolding max_task_record_id
highest = omega arith

upsert_lem_example :
    (task_record_by_id 4 (upsert 8 backup_record two_records) ≡ (
      if ltb (newer 4 (put ℕ_discrete 8 backup_record two_records)) task_record_retention
      then ite (ℕ_discrete 8 4) (some backup_record) (task_record_by_id 4 two_records)
      else none))
    × (task_record_by_id 8 (upsert 8 backup_record two_records) ≡ some backup_record)
upsert_lem_example = upsert_lem 8 4 backup_record two_records highest

scan_found : task_record_by_id 4 two_records ≡ some scan_record
unfolding task_record_by_id find ℕ_discrete
scan_found = refl

restart_lem_example :
    (task_record_by_id 4 (mark_interrupted "9" two_records).0
      ≡ some (ended_by_restart "9" scan_record))
    × (ended_by_restart "9" scan_record).status ≢ RecordStatus.queued
    × (ended_by_restart "9" scan_record).status ≢ RecordStatus.running
    × ((mark_interrupted "10" (mark_interrupted "9" two_records).0).1 ≡ 0)
restart_lem_example = restart_lem "9" "10" 4 scan_record two_records scan_found
