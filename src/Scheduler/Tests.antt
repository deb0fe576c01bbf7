-- ===== src/Scheduler/Tests.antt =====
-- The scheduler of internal/scheduler/scheduler.go with two concrete tasks.
use emby_go.Base.{
  ℕ, ◌+◌, ◌≤◌, ◌≡◌, refl, true, false, not, ◌&&◌, List, [], ◌∷◌, Option, none, some, String, Table,
  find, IsKeyed, ℕ_discrete, leb, ◌==◌, if◌then◌else◌,
}
use emby_go.Scheduler.Tasks.{
  Scheduler, ScheduledTask, TaskStatus, RunOutcome, is_running, end_run, reload, next,
}
use emby_go.Scheduler.Single.{Happening, count, happenings, before, runs_once}
use emby_go.Scheduler.Loaded.{asked, next-reload}
use emby_go.Scheduler.Results.{with_result, end_run_lem}

abbrev scan_task : ScheduledTask
scan_task = record {
  name = "scan";
  kind = "scan";
  cron = "@daily";
  params = "{}";
  enabled = true;
  last_run_at = 0;
  last_status = TaskStatus.never;
  last_message = "";
}

abbrev probe_task : ScheduledTask
probe_task = record scan_task { name = "probe"; kind = "probe"; enabled = false }

abbrev two_tasks : Table ℕ ScheduledTask
two_tasks = (1, scan_task) ∷ (2, probe_task) ∷ []

-- Every expression stands for one period.
abbrev one_period : String → Option ℕ
one_period expr = some 10

abbrev later : ℕ → ℕ → ℕ
later period now = now + period

abbrev busy_scheduler : Scheduler ℕ
busy_scheduler = record { tasks = two_tasks; schedules = []; running = (1, true) ∷ [] }

abbrev four_happenings : List Happening
four_happenings =
    Happening.fires 1 5
    ∷ Happening.runs_now 1
    ∷ Happening.ends 1 RunOutcome.done 9
    ∷ Happening.runs_now 2
    ∷ []

runs_once_example :
    (count 1 (happenings one_period four_happenings (before one_period two_tasks)).active ≤ 1)
    × (is_running 1 (happenings one_period four_happenings (before one_period two_tasks)).scheduler
        ≡ leb 1
            (count 1 (happenings one_period four_happenings (before one_period two_tasks)).active))
runs_once_example = runs_once one_period two_tasks four_happenings 1

two_tasks-IsKeyed : IsKeyed ℕ_discrete two_tasks
unfolding find ℕ_discrete
two_tasks-IsKeyed = (refl, (refl, tt))

next-reload_example :
    next later 1 100 (reload one_period busy_scheduler)
    ≡ elim (asked one_period (find ℕ_discrete 1 two_tasks)) [
      | none ↦ none
      | some schedule ↦ some (later schedule 100)
    ]
next-reload_example = next-reload one_period later 1 100 busy_scheduler two_tasks-IsKeyed

first_task : find ℕ_discrete 1 two_tasks ≡ some scan_task
unfolding find ℕ_discrete
first_task = refl

end_run_lem_example :
    (find ℕ_discrete 1 (end_run 1 (RunOutcome.busy "scan") 9 busy_scheduler).tasks
      ≡ some (if 1 == 1 then with_result TaskStatus.skipped "scan" 9 scan_task else scan_task))
    × (is_running 1 (end_run 1 (RunOutcome.busy "scan") 9 busy_scheduler)
        ≡ not (1 == 1) && is_running 1 busy_scheduler)
end_run_lem_example = end_run_lem 1 1 9 (RunOutcome.busy "scan") busy_scheduler scan_task first_task
