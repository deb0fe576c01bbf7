-- ===== src/Scheduler/Single.antt =====
-- No task of the scheduler (internal/scheduler/scheduler.go) runs twice at once, however the cron
-- firings, the requests to run now, the reloads and the ends of runs interleave.
use emby_go.Base.{
  ℕ, suc, ◌-◌, ◌≤◌, ◌≡◌, refl, true, List, [], ◌∷◌, Option, none, some, String, Table, find,
  find-put, find-erase, ℕ_discrete, leb, ◌==◌, if◌then◌else◌, ite, arith,
}
use emby_go.Scheduler.Tasks.{
  Scheduler, ScheduledTask, RunOutcome, is_running, acquire, release, record_result, fire, end_run,
  run_now, reload,
}

unfoldable pub count : ℕ → List ℕ → ℕ
count id [] = 0
count id (j ∷ l) = ite (ℕ_discrete j id) (suc (count id l)) (count id l)

-- One run of a task less.
unfoldable pub remove_one : ℕ → List ℕ → List ℕ
remove_one id [] = []
remove_one id (j ∷ l) = let rest = remove_one id l in ite (ℕ_discrete j id) l (j ∷ rest)

count-remove_self : (id : ℕ) (l : List ℕ) → count id (remove_one id l) ≡ count id l - 1
unfolding count remove_one
count-remove_self id [] = refl
count-remove_self id (j ∷ l) = ground (arith, count-remove_self id l)

count-remove_ne : (id q : ℕ) (l : List ℕ) → ¬ (id ≡ q) → count q (remove_one id l) ≡ count q l
unfolding count remove_one
count-remove_ne id q [] h = refl
count-remove_ne id q (j ∷ l) h = ground (arith, count-remove_ne id q l h)

-- What happens to the scheduler: a cron firing, a request to run now, the end of a run with its
-- outcome, and a reload; the number is the task's id.
pub data Happening : Type 0 where
  fires : ℕ → ℕ → Happening
  runs_now : ℕ → Happening
  ends : ℕ → RunOutcome → ℕ → Happening
  reloads : Happening

-- The scheduler and the tasks that run, a task for each of its runs.
pub record World (Schedule : Type 0) : Type 0 where
  pub scheduler : Scheduler Schedule
  pub active : List ℕ

module _ {Schedule : Type 0} (parse : String → Option Schedule) where
  unfoldable pub happen : Happening → World Schedule → World Schedule
  happen (Happening.fires id now) w =
      let (s, ok) = fire id now w.scheduler in
      record { scheduler = s; active = if ok then id ∷ w.active else w.active }
  happen (Happening.runs_now id) w =
      let (s, refused) = run_now parse id w.scheduler in
      record { scheduler = s; active = elim refused [ none ↦ id ∷ w.active | some _ ↦ w.active ] }
  happen (Happening.ends id outcome now) w = if count id w.active == 0 then w else record {
    scheduler = end_run id outcome now w.scheduler;
    active = remove_one id w.active;
  }
  happen Happening.reloads w = record w { scheduler = reload parse w.scheduler }

  unfoldable pub happenings : List Happening → World Schedule → World Schedule
  happenings [] w = w
  happenings (h ∷ l) w = happenings l (happen h w)

  -- Each task runs once if it is marked as running, and not at all if it is not.
  abbrev pub IsExclusive : World Schedule → Type 0
  IsExclusive w = (id : ℕ) → count id w.active ≡ (if is_running id w.scheduler then 1 else 0)

  fire-IsExclusive :
      (id now : ℕ) (w : World Schedule)
      → IsExclusive w
      → IsExclusive (happen (Happening.fires id now) w)
  unfolding happen fire acquire is_running record_result count
  fire-IsExclusive id now w h q =
      ground (arith, h id, h q, find-put ℕ_discrete id q true w.scheduler.running)

  run-IsExclusive :
      (id : ℕ) (w : World Schedule) → IsExclusive w → IsExclusive (happen (Happening.runs_now id) w)
  unfolding happen run_now acquire is_running count
  run-IsExclusive id w h q =
      ground (arith, h id, h q, find-put ℕ_discrete id q true w.scheduler.running)

  end-IsExclusive :
      (id now : ℕ) (outcome : RunOutcome) (w : World Schedule)
      → IsExclusive w
      → IsExclusive (happen (Happening.ends id outcome now) w)
  unfolding happen end_run record_result release is_running
  end-IsExclusive id now outcome w h q = ground (
    arith,
    h id,
    h q,
    find-erase ℕ_discrete id q w.scheduler.running,
    count-remove_self id w.active,
    count-remove_ne id q w.active,
  )

  reload-IsExclusive :
      (w : World Schedule) → IsExclusive w → IsExclusive (happen Happening.reloads w)
  unfolding happen reload is_running
  reload-IsExclusive w h q = h q

  happen-IsExclusive :
      (e : Happening) (w : World Schedule) → IsExclusive w → IsExclusive (happen e w)
  happen-IsExclusive (Happening.fires id now) w h = fire-IsExclusive id now w h
  happen-IsExclusive (Happening.runs_now id) w h = run-IsExclusive id w h
  happen-IsExclusive (Happening.ends id outcome now) w h = end-IsExclusive id now outcome w h
  happen-IsExclusive Happening.reloads w h = reload-IsExclusive w h

  happenings-IsExclusive :
      (l : List Happening) (w : World Schedule) → IsExclusive w → IsExclusive (happenings l w)
  unfolding happenings
  happenings-IsExclusive [] w h = h
  happenings-IsExclusive (e ∷ l) w h =
      happenings-IsExclusive l (happen e w) (happen-IsExclusive e w h)

  -- A scheduler with its tasks before anything ran.
  abbrev pub before : Table ℕ ScheduledTask → World Schedule
  before tasks = record {
    scheduler = record { tasks = tasks; schedules = []; running = [] };
    active = [];
  }

  before-IsExclusive : (tasks : Table ℕ ScheduledTask) → IsExclusive (before tasks)
  unfolding is_running find count
  before-IsExclusive tasks id = refl

  -- However firings, requests to run now, reloads and ends of runs interleave, every task runs at most
  -- once at a time, and it is marked as running exactly while it runs.
  pub runs_once :
      (tasks : Table ℕ ScheduledTask) (l : List Happening) (id : ℕ)
      → (count id (happenings l (before tasks)).active ≤ 1)
        × (is_running id (happenings l (before tasks)).scheduler
            ≡ leb 1 (count id (happenings l (before tasks)).active))
  runs_once tasks l id =
      ground (arith, happenings-IsExclusive l (before tasks) (before-IsExclusive tasks) id)
