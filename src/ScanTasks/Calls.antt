-- ===== src/ScanTasks/Calls.antt =====
-- Any sequence of submissions, runs and questions (internal/server/scan_tasks.go).
use emby_go.Base.{ℕ, ◌-◌, Bool, true, not, ◌&&◌, List, [], ◌∷◌, String, leb, ◌==◌}
use emby_go.ScanTasks.Registry.{
  ScanTasks, Submission, replay_scan_task, set_scan_task_running, scan_idem_ttl,
}
use emby_go.ScanTasks.Requests.{Surroundings, RunOutcome, admin_submit_scan, end_run}

pub data Call : Type 0 where
  submit : Surroundings → ℕ → Submission → Call
  ask : String → ℕ → Call
  start : ℕ → String → Bool → Call
  stop : ℕ → String → RunOutcome → Bool → Call

module _ (byte_length : String → ℕ) where
  unfoldable pub perform : Call → ScanTasks → ScanTasks
  unfolding admin_submit_scan replay_scan_task set_scan_task_running end_run
  perform (Call.submit w now b) s = (admin_submit_scan byte_length w now b s).0
  perform (Call.ask key now) s = (replay_scan_task key now s).0
  perform (Call.start id now stored) s = set_scan_task_running id now stored s
  perform (Call.stop id now outcome stored) s = end_run id now outcome stored s

  unfoldable pub run : List Call → ScanTasks → ScanTasks
  unfolding perform
  run [] s = s
  run (c ∷ l) s = run l (perform c s)

-- Whether a call is within the hour after `at`, does not end the task `id`, and does not use its id.
unfoldable pub spares : ℕ → ℕ → Call → Bool
spares id at (Call.submit w now b) = not (b.id == id) && leb (now - at) scan_idem_ttl
spares id at (Call.ask key now) = leb (now - at) scan_idem_ttl
spares id at (Call.start j now stored) = true
spares id at (Call.stop j now outcome stored) = not (j == id)

unfoldable pub all_spare : ℕ → ℕ → List Call → Bool
unfolding spares
all_spare id at [] = true
all_spare id at (c ∷ l) = spares id at c && all_spare id at l
