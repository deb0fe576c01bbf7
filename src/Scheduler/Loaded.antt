-- ===== src/Scheduler/Loaded.antt =====
-- What the scheduler (internal/scheduler/scheduler.go) has in its calendar after a reload.
use emby_go.Base.{
  ℕ, ◌≡◌, refl, inl, inr, [], ◌∷◌, Option, none, some, String, Table, find, find-put, IsKeyed,
  ℕ_discrete, if◌then◌else◌, ite, arith, Option-cases,
}
use emby_go.Scheduler.Tasks.{Scheduler, ScheduledTask, register, register_all, reload, next}

module _ {Schedule : Type 0} (parse : String → Option Schedule) where
  -- The schedule that a row asks for: none if there is no row, it is disabled or does not parse.
  unfoldable pub asked : Option ScheduledTask → Option Schedule
  asked none = none
  asked (some row) = if row.enabled then parse row.cron else none

  or_else : Option Schedule → Option Schedule → Option Schedule
  or_else (some s) _ = some s
  or_else none o = o

  find-register :
      (id q : ℕ) (row : ScheduledTask) (t : Table ℕ Schedule)
      → find ℕ_discrete q (register parse id row t)
        ≡ ite
            (ℕ_discrete id q)
            (or_else (asked (some row)) (find ℕ_discrete q t))
            (find ℕ_discrete q t)
  unfolding register asked or_else
  find-register id q row t = elim (Option-cases (parse row.cron)) [
    | inl e ↦ ground (arith, e)
    | inr (s, e) ↦ ground (arith, e, find-put ℕ_discrete id q s t)
  ]

  find-register_all :
      (q : ℕ) (rows : Table ℕ ScheduledTask) (t : Table ℕ Schedule)
      → IsKeyed ℕ_discrete rows
      → find ℕ_discrete q (register_all parse rows t)
        ≡ or_else (asked (find ℕ_discrete q rows)) (find ℕ_discrete q t)
  unfolding register_all find or_else asked
  find-register_all q [] t k = refl
  find-register_all q ((id, row) ∷ rows) t (u, k) =
      ground
        (arith, find-register_all q rows (register parse id row t) k, find-register id q row t, u)

  -- After a reload, a task has a next time exactly if its row is there, enabled and with an expression
  -- that parses; the time is the next one of that expression.
  pub next-reload :
      (next_time : Schedule → ℕ → ℕ) (id now : ℕ) (s : Scheduler Schedule)
      → IsKeyed ℕ_discrete s.tasks
      → next next_time id now (reload parse s) ≡ elim (asked (find ℕ_discrete id s.tasks)) [
        | none ↦ none
        | some schedule ↦ some (next_time schedule now)
      ]
  unfolding next reload find or_else
  next-reload next_time id now s k = elim (Option-cases (asked (find ℕ_discrete id s.tasks))) [
    | inl e ↦ ground (arith, e, find-register_all id s.tasks [] k)
    | inr (c, e) ↦ ground (arith, e, find-register_all id s.tasks [] k)
  ]
