-- ===== src/AuthGuard/Bounded.antt =====
-- The tables of internal/server/auth_guard.go stay bounded over every run.
use emby_go.Base.{
  ℕ, ◌≤◌, refl, List, [], ◌∷◌, arith, Option, none, some, erase, inl, inr, Option-cases, String,
  string_discrete, length, length-erase-le, length-keep-le, get_elem?, not,
}
use emby_go.AuthGuard.Types.{
  AuthGuard, AuthGuardConfig, AuthText, failure_key_discrete, ip_key, account_key,
  auth_account_digest,
}
use emby_go.AuthGuard.Admin.{
  forget_account, is_combo_of, on_credential_commit_success, unlock_at, unlock, UnlockTarget,
  account_target, ip_target, other_target, unlock_target,
}
use emby_go.AuthGuard.System.{
  System, Event, admits, attaches, finishes, commits, unlocks, attach_at, finish_at, step, run,
  start, normalize,
}
use emby_go.AuthGuard.Memory.{Small, admit_request-Small, attach_account-Small, finish-Small}

forget_account-length :
    (d : String) (g : AuthGuard) → length (forget_account d g.failures) ≤ length g.failures
unfolding forget_account
forget_account-length d g = omega (
  arith,
  length-keep-le failure_key_discrete (λ k _. not (is_combo_of d k))
      (erase failure_key_discrete (account_key d) g.failures),
  length-erase-le failure_key_discrete (account_key d) g.failures,
)

module _ (text : AuthText) (parse_ip : String → Option String) (m : ℕ) where
  unlock_at-Small :
      (target : UnlockTarget) (g : AuthGuard) → Small m g → Small m (unlock_at text target g).0
  unfolding unlock_at
  unlock_at-Small (account_target value) g s =
      ground (arith, forget_account-length (auth_account_digest text value) g)
  unlock_at-Small (ip_target none) g s = s
  unlock_at-Small (ip_target (some ip)) g s = ground (
    arith,
    length-erase-le failure_key_discrete (ip_key ip) g.failures,
    length-erase-le string_discrete ip g.ip_tokens,
  )
  unlock_at-Small other_target g s = s

  commit-Small :
      (username : String) (g : AuthGuard)
      → Small m g
      → Small m (on_credential_commit_success text username g)
  unfolding on_credential_commit_success
  commit-Small username g s =
      ground (arith, forget_account-length (auth_account_digest text (text.trim_space username)) g)

  step-Small : (e : Event) (s : System) → Small m s.guard → Small m (step text parse_ip e s).guard
  unfolding step attach_at finish_at unlock
  step-Small (admits ip now) s v = admit_request-Small m ip now s.guard v
  step-Small (attaches i username now) s v = elim (Option-cases (get_elem? s.tickets i)) [
    | inl e ↦ rw (e, step, attach_at) v
    | inr (t, e) ↦ rw (e, step, attach_at) (attach_account-Small m text username now t s.guard v)
  ]
  step-Small (finishes i outcome now) s v = elim (Option-cases (get_elem? s.tickets i)) [
    | inl e ↦ rw (e, step, finish_at) v
    | inr (t, e) ↦ rw (e, step, finish_at) (finish-Small m outcome now t s.guard v)
  ]
  step-Small (commits username) s v = commit-Small username s.guard v
  step-Small (unlocks target value) s v =
      unlock_at-Small (unlock_target text parse_ip target value) s.guard v

  run-Small :
      (es : List Event) (s : System) → Small m s.guard → Small m (run text parse_ip es s).guard
  unfolding run
  run-Small [] s v = v
  run-Small (e ∷ es) s v = run-Small es (step text parse_ip e s) (step-Small e s v)

-- Whatever keys its clients make up, the guard's failure table and its table of source buckets
-- never hold more keys than the configured bound.
pub run_bounded :
    (text : AuthText) (parse_ip : String → Option String) (cfg : AuthGuardConfig) (clock : ℕ)
    (es : List Event)
    → let g = (run text parse_ip es (start cfg clock)).guard in
      (length g.failures ≤ (normalize cfg).max_keys)
      × (length g.ip_tokens ≤ (normalize cfg).max_keys)
unfolding start
run_bounded text parse_ip cfg clock es =
    let s =
      run-Small text parse_ip (normalize cfg).max_keys es (start cfg clock)
        (record { failures_fit = omega arith; buckets_fit = omega arith; bound = refl }) in
    (s.failures_fit, s.buckets_fit)
