-- ===== src/ScanTasks/Tests.antt =====
-- Background scans (internal/server/scan_tasks.go) with concrete requests.
use text.Mathlib.TextEquality.{eq_iff}
use emby_go.Base.{
  ℕ, ◌≤◌, ◌≡◌, ◌≢◌, refl, true, false, List, [], ◌∷◌, none, some, String, find, keep, length, ite,
  ℕ_discrete, string_discrete, arith,
}
use emby_go.ScanTasks.Registry.{
  AsyncScanTask, ScanTasks, Submission, scan_task_capacity, is_finished, task_of,
}
use emby_go.ScanTasks.Requests.{Answer, Surroundings, RunOutcome, admin_submit_scan}
use emby_go.ScanTasks.Calls.{Call, run, all_spare}
use emby_go.ScanTasks.Repeated.{submit-repeated}
use emby_go.ScanTasks.Bounds.{run-Fits}

abbrev short_length : String → ℕ
short_length text = 5

abbrev idle : Surroundings
idle = record { admitted = true; worker = true; shutting = false; scanning = false; stored = true }

abbrev closing : Surroundings
closing = record {
  admitted = false;
  worker = false;
  shutting = true;
  scanning = true;
  stored = false;
}

abbrev no_tasks : ScanTasks
no_tasks = record { tasks = []; order = []; idem = []; records = [] }

abbrev scan_one : Submission
scan_one = record {
  id = 1;
  kind = "scan";
  library_id = 3;
  mode = "incremental";
  allow_empty = false;
  digest = "d";
  idem_key = "key";
  marker = none;
  created_at = "t0";
}

abbrev scan_two : Submission
scan_two = record scan_one { id = 2; digest = "other" }

abbrev accepted_one : ScanTasks
accepted_one = (admin_submit_scan short_length idle 0 scan_one no_tasks).0

abbrev later_calls : List Call
later_calls =
    Call.start 1 "t1" true
    ∷ Call.ask "key" 10
    ∷ Call.submit idle 20 scan_two
    ∷ Call.stop 7 "t2" (RunOutcome.failed "{}" "no such task") true
    ∷ []

key_not_empty : ◌≢◌ {A = String} "key" ""
key_not_empty = ground (arith, eq_iff "key" "")

-- While the server closes, the same request is still answered with the task.
submit-repeated_example :
    let after : ScanTasks = run short_length later_calls accepted_one in
    (found : AsyncScanTask) × ((admin_submit_scan short_length closing 30 scan_one after).1
      ≡ ite (string_discrete "d" "d") (Answer.again 1 found) Answer.idempotency_conflict)
    × (find ℕ_discrete 1 after.tasks ≡ some found)
    × (is_finished found.status ≡ false)
unfolding admin_submit_scan string_discrete find keep all_spare
submit-repeated_example =
    submit-repeated short_length idle closing 0 30 scan_one scan_one no_tasks accepted_one
      later_calls 1 (task_of scan_one) key_not_empty accepted refl (omega arith) refl
  where
    accepted :
        admin_submit_scan short_length idle 0 scan_one no_tasks
        ≡ (accepted_one, Answer.accepted 1 (task_of scan_one))
    accepted = refl

run-Fits_example : length (run short_length later_calls accepted_one).order ≤ scan_task_capacity
unfolding admin_submit_scan
run-Fits_example = run-Fits short_length later_calls accepted_one (ground arith)
