-- ===== src/AuthGuard/Interleaving.antt =====
-- The failure budget of internal/server/auth_guard.go over every interleaving of requests.
use emby_go.Base.{
  ℕ, ◌+◌, ◌≤◌, ◌≡◌, refl, List, [], ◌∷◌, arith, true, false, ◌||◌, Option, some, String, get_elem?,
  set, total, total-get_elem, Option-cases, Bool-cases, inl, inr, string_discrete, if_pos, if_neg,
  ◌==◌,
}
use emby_go.AuthGuard.Types.{
  AuthGuard, AuthGuardConfig, AuthText, AuthTicket, AuthOutcome, account_key, combo_key,
  auth_account_failure_limit, auth_combo_failure_limit, auth_account_key, auth_combo_key,
  auth_account_digest,
}
use emby_go.AuthGuard.Failures.{count_of, is_empty_key}
use emby_go.AuthGuard.Tickets.{
  admit_checks, admit_request, attach_account, attach_named, finish, check_account, reserve_keys,
  release_ticket, settle,
}
use emby_go.AuthGuard.Load.{failures_at}
use emby_go.AuthGuard.Quiet.{
  Quiet, Quiet-refl, admit_checks-Quiet, check_account-Quiet, commit-Quiet, unlock-Quiet,
}
use emby_go.AuthGuard.System.{
  attach_at, finish_at, System, Event, admits, attaches, finishes, commits, unlocks, step, run,
  start,
}
use emby_go.AuthGuard.Budget.{
  account_limit, combo_limit, holds, Quiet-Budget, count_of-release_ticket, count_of-reserve_keys,
  reserve_keys-Budget, check_account-Room,
}
use emby_go.AuthGuard.Invariant.{
  inflight-settle, Inv, settle-Budget, start-Inv, Quiet-Inv, new_ticket-Inv, set-Inv,
}

module _ (text : AuthText) (parse_ip : String → Option String) where
  admits-Inv :
      (s : System) (ip : String) (now : ℕ) → Inv s → Inv (step text parse_ip (admits ip now) s)
  unfolding step admit_request
  admits-Inv s ip now v =
      let quiet =
        Quiet-Inv s (admit_checks ip now s.guard).0 (admit_checks-Quiet ip now s.guard) v in
      elim (Bool-cases ((admit_checks ip now s.guard).1 == 0)) [
        | inl z ↦ rw (z, step, admit_request) (new_ticket-Inv _ _ refl refl quiet)
        | inr n ↦ rw (n, step, admit_request) quiet
      ]

  -- The reservation of a ticket that held nothing.
  reserve-Inv :
      (s : System) (i now : ℕ) (d : String) (t : AuthTicket)
      → get_elem? s.tickets i ≡ some t
      → t.reserved ≡ false
      → (check_account t.ip d now s.guard).1 ≡ 0
      → Inv s
      → Inv (record {
        guard = reserve_keys t.ip d (check_account t.ip d now s.guard).0;
        tickets = set s.tickets i (record t { account = some d; reserved = true });
      })
  unfolding auth_account_key auth_combo_key is_empty_key
  reserve-Inv s i now d t at free open_ v =
      let h = (check_account t.ip d now s.guard).0 in
      let quiet : Quiet s.guard h = check_account-Quiet t.ip d now s.guard in
      let (a, c) =
        check_account-Room t.ip d now s.guard (v.budget _ _ (account_limit d))
          (v.budget _ _ (combo_limit t.ip d)) open_ in
      set-Inv s i t _ _ at
        (λ q limit r. ground (arith, count_of-reserve_keys q t.ip d h, quiet.same)) (λ e k. refl)
        (λ q limit r.
          reserve_keys-Budget t.ip d h r (Quiet-Budget q limit quiet (v.budget q limit r)) a c)
        v

  -- A call that leaves the ticket as it is.
  same-Inv :
      (s : System) (i : ℕ) (t : AuthTicket) (g : AuthGuard)
      → get_elem? s.tickets i ≡ some t
      → Quiet s.guard g
      → Inv s
      → Inv (record { guard = g; tickets = set s.tickets i t })
  same-Inv s i t g at quiet v =
      set-Inv s i t t g at (λ q limit r. ground (arith, quiet.same)) (v.sound i t at)
        (λ q limit r. Quiet-Budget q limit quiet (v.budget q limit r)) v

  abbrev with_ticket : System → ℕ → AuthGuard → AuthTicket → System
  with_ticket s i g t = record { guard = g; tickets = set s.tickets i t }

  attach_named-Inv :
      (s : System) (i now : ℕ) (d : String) (t : AuthTicket)
      → get_elem? s.tickets i ≡ some t
      → Inv s
      → Inv (with_ticket s i (attach_named d now t s.guard).0 (attach_named d now t s.guard).1)
  unfolding attach_named
  attach_named-Inv s i now d t at v = elim (Bool-cases (t.finished || t.reserved)) [
    | inl used ↦ rw (used, attach_named) (same-Inv s i t s.guard at (Quiet-refl s.guard) v)
    | inr fresh ↦ elim (Bool-cases ((check_account t.ip d now s.guard).1 == 0)) [
      | inl z ↦
          rw (fresh, z, attach_named) (reserve-Inv s i now d t at (ground arith) (ground arith) v)
      | inr n ↦
          rw (fresh, n, attach_named)
            (same-Inv s i t _ at (check_account-Quiet t.ip d now s.guard) v)
    ]
  ]

  attach_account-attach_named :
      (username : String) (now : ℕ) (t : AuthTicket) (g : AuthGuard)
      → ¬ (text.trim_space username ≡ "")
      → attach_account text username now t g
        ≡ attach_named (auth_account_digest text (text.trim_space username)) now t g
  unfolding attach_account
  attach_account-attach_named username now t g named =
      if_neg (string_discrete (text.trim_space username) "") named _ _

  attach_account_blank :
      (username : String) (now : ℕ) (t : AuthTicket) (g : AuthGuard)
      → text.trim_space username ≡ ""
      → attach_account text username now t g ≡ (g, t, 0)
  unfolding attach_account
  attach_account_blank username now t g blank =
      if_pos (string_discrete (text.trim_space username) "") blank _ _

  attach_at-Inv :
      (s : System) (i now : ℕ) (username : String)
      → Inv s
      → Inv (attach_at text parse_ip i username now s)
  unfolding attach_at
  attach_at-Inv s i now username v = elim (Option-cases (get_elem? s.tickets i)) [
    | inl e ↦ rw (e, attach_at) v
    | inr (t, e) ↦ elim (string_discrete (text.trim_space username) "") [
      | yes blank ↦
          rw (e, attach_at, attach_account_blank username now t s.guard blank)
            (same-Inv s i t s.guard e (Quiet-refl s.guard) v)
      | no named ↦
          rw (e, attach_at, attach_account-attach_named username now t s.guard named)
            (attach_named-Inv s i now _ t e v)
    ]
  ]

  -- A request that is live gives back its reservation.
  settle-Inv :
      (s : System) (i now : ℕ) (outcome : AuthOutcome) (t : AuthTicket)
      → get_elem? s.tickets i ≡ some t
      → t.finished ≡ false
      → Inv s
      → Inv (
          with_ticket s i
            (settle outcome t now (release_ticket t s.guard))
            (record t { finished = true; reserved = false }))
  settle-Inv s i now outcome t at live v =
      set-Inv s i t _ _ at
        (λ q limit r. ground (
          arith,
          inflight-settle outcome t now (release_ticket t s.guard),
          count_of-release_ticket q t s.guard,
          v.counted q limit r,
          total-get_elem (holds q) s.tickets i t,
        ))
        (λ d e. refl)
        (λ q limit r.
          settle-Budget outcome now t s.guard r live (v.sound i t at)
            (omega (arith, v.counted q limit r, total-get_elem (holds q) s.tickets i t at))
            (v.budget q limit r))
        v

  finish-some-Inv :
      (s : System) (i now : ℕ) (outcome : AuthOutcome) (t : AuthTicket)
      → get_elem? s.tickets i ≡ some t
      → Inv s
      → Inv (with_ticket s i (finish outcome now t s.guard).0 (finish outcome now t s.guard).1)
  unfolding finish
  finish-some-Inv s i now outcome t at v = elim (Bool-cases t.finished) [
    | inl done ↦ simp (done, finish) (same-Inv s i t s.guard at (Quiet-refl s.guard) v)
    | inr live ↦ simp (live, finish) (settle-Inv s i now outcome t at live v)
  ]

  finish_at-Inv :
      (s : System) (i now : ℕ) (outcome : AuthOutcome)
      → Inv s
      → Inv (finish_at text parse_ip i outcome now s)
  unfolding finish_at
  finish_at-Inv s i now outcome v = elim (Option-cases (get_elem? s.tickets i)) [
    | inl e ↦ rw (e, finish_at) v
    | inr (t, e) ↦ rw (e, finish_at) (finish-some-Inv s i now outcome t e v)
  ]

  pub step-Inv : (e : Event) (s : System) → Inv s → Inv (step text parse_ip e s)
  unfolding step
  step-Inv (admits ip now) s v = admits-Inv s ip now v
  step-Inv (attaches i username now) s v = attach_at-Inv s i now username v
  step-Inv (finishes i outcome now) s v = finish_at-Inv s i now outcome v
  step-Inv (commits username) s v = Quiet-Inv s _ (commit-Quiet text username s.guard) v
  step-Inv (unlocks target value) s v =
      Quiet-Inv s _ (unlock-Quiet text parse_ip target value s.guard) v

  run-Inv : (es : List Event) (s : System) → Inv s → Inv (run text parse_ip es s)
  unfolding run
  run-Inv [] s v = v
  run-Inv (e ∷ es) s v = run-Inv es (step text parse_ip e s) (step-Inv e s v)

  -- From the start of the process, after any sequence of the guard's calls by any number of
  -- concurrent requests: for every account the recorded failures and the attempts in flight are
  -- at most 10 together, for every pair of a source and an account at most 5, and the attempts in
  -- flight are those of the tickets that hold a reservation.
  pub run_budget :
      (cfg : AuthGuardConfig) (clock : ℕ) (es : List Event) (ip d : String)
      → let s = run text parse_ip es (start cfg clock) in
        (failures_at (account_key d) s.guard.failures + count_of (account_key d) s.guard.inflight
          ≤ auth_account_failure_limit)
        × (failures_at (combo_key ip d) s.guard.failures
              + count_of (combo_key ip d) s.guard.inflight
            ≤ auth_combo_failure_limit)
        × (count_of (account_key d) s.guard.inflight ≡ total (holds (account_key d)) s.tickets)
  run_budget cfg clock es ip d =
      let v = run-Inv es (start cfg clock) (start-Inv cfg clock) in
      (
        (v.budget _ _ (account_limit d)).within,
        (v.budget _ _ (combo_limit ip d)).within,
        v.counted _ _ (account_limit d),
      )
