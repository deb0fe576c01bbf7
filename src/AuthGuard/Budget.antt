-- ===== src/AuthGuard/Budget.antt =====
-- The failure budget of internal/server/auth_guard.go over every interleaving of requests.
use emby_go.Base.{
  ℕ, ◌+◌, ◌-◌, ◌≤◌, ◌<◌, ◌≡◌, refl, arith, true, false, ◌||◌, Option, some, String, if◌then◌else◌,
  Bool-cases, inl, inr, ◌==◌,
}
use emby_go.AuthGuard.Types.{
  RejectReason, AuthGuard, AuthTicket, FailureKey, ip_key, account_key, combo_key,
  auth_account_failure_limit, auth_combo_failure_limit, auth_account_key, auth_combo_key,
  account_cooldown_max, auth_account_failure_window, auth_combo_failure_window,
}
use emby_go.AuthGuard.Failures.{count_of, is_empty_key, reserve, release}
use emby_go.AuthGuard.Tickets.{
  Answer, Counted, by_account, by_combo, check_account, check_key, reserve_keys, release_ticket,
  ◌>=>◌,
}
use emby_go.AuthGuard.Load.{
  hit, released, failures_at, BlockedAtLimit, Shrinks-BlockedAtLimit, Shrinks-failures_at,
  retry_for_key-zero, count_of-reserve, count_of-release,
}
use emby_go.AuthGuard.Quiet.{Quiet, check_key-Quiet}

-- The keys whose budget is reserved before a password is checked, with their limits.
pub data Reserved : FailureKey → ℕ → Type 0 where
  account_limit : (d : String) → Reserved (account_key d) auth_account_failure_limit
  combo_limit : (ip d : String) → Reserved (combo_key ip d) auth_combo_failure_limit

-- Recorded failures and attempts in flight stay within the limit.
pub record Budget (g : AuthGuard) (q : FailureKey) (limit : ℕ) : Type 0 where
  pub within : failures_at q g.failures + count_of q g.inflight ≤ limit
  pub blocked : BlockedAtLimit limit q g.failures

pub Quiet-Budget :
    {g h : AuthGuard} (q : FailureKey) (limit : ℕ) → Quiet g h → Budget g q limit → Budget h q limit
Quiet-Budget {g} {h} q limit quiet b = record {
  within =
      ground (arith, Shrinks-failures_at q g.failures h.failures quiet.fewer, quiet.same, b.within);
  blocked = Shrinks-BlockedAtLimit limit q g.failures h.failures quiet.fewer b.blocked;
}

-- How often a key is among the keys of a source and its account.
abbrev pub weight : FailureKey → String → Option String → ℕ
weight q ip account =
    released (ip_key ip) q
    + released (auth_account_key account) q
    + released (auth_combo_key ip account) q

-- What a ticket holds of a key.
abbrev pub holds : FailureKey → AuthTicket → ℕ
holds q t = if t.reserved then weight q t.ip t.account else 0

-- An account is attached by the reservation, and stays attached when the request is finished.
abbrev pub IsSound : AuthTicket → Type 0
IsSound t = (d : String) → t.account ≡ some d → (t.reserved || t.finished) ≡ true

-- Releasing a ticket takes exactly what it holds out of flight.
pub count_of-release_ticket :
    (q : FailureKey) (t : AuthTicket) (g : AuthGuard)
    → count_of q (release_ticket t g).inflight ≡ count_of q g.inflight - holds q t
unfolding release_ticket
count_of-release_ticket q t g =
    let g1 = release (ip_key t.ip) g in
    let g2 = release (auth_account_key t.account) g1 in
    ground (
      arith,
      count_of-release (ip_key t.ip) q g,
      count_of-release (auth_account_key t.account) q g1,
      count_of-release (auth_combo_key t.ip t.account) q g2,
    )

pub count_of-reserve_keys :
    (q : FailureKey) (ip d : String) (g : AuthGuard)
    → count_of q (reserve_keys ip d g).inflight
      ≡ count_of q g.inflight + hit (ip_key ip) q + hit (account_key d) q + hit (combo_key ip d) q
unfolding reserve_keys
count_of-reserve_keys q ip d g = ground (
  arith,
  count_of-reserve (ip_key ip) q g.inflight,
  count_of-reserve (account_key d) q (reserve (ip_key ip) g.inflight),
  count_of-reserve (combo_key ip d) q (reserve (account_key d) (reserve (ip_key ip) g.inflight)),
)

-- A check that asks for no wait leaves room for one more attempt under its key.
check_key-zero :
    (c : Counted) (reason : RejectReason) (k : FailureKey) (limit window cooldown now : ℕ)
    (g : AuthGuard)
    → is_empty_key k ≡ false
    → 0 < limit
    → Budget g k limit
    → (check_key c reason k limit window cooldown now g).1 ≡ 0
    → failures_at k (check_key c reason k limit window cooldown now g).0.failures
        + count_of k (check_key c reason k limit window cooldown now g).0.inflight
      < limit
unfolding check_key
check_key-zero c reason k limit window cooldown now g ne pos b h = ground (
  arith,
  retry_for_key-zero k limit window cooldown now g.inflight g.failures ne pos b.blocked b.within,
)

-- Room for one more attempt.
abbrev pub Room : AuthGuard → FailureKey → ℕ → Type 0
Room g q limit = failures_at q g.failures + count_of q g.inflight < limit

Quiet-Room :
    (g h : AuthGuard) (q : FailureKey) (limit : ℕ) → Quiet g h → Room g q limit → Room h q limit
Quiet-Room g h q limit quiet r =
    ground (arith, Shrinks-failures_at q g.failures h.failures quiet.fewer, quiet.same)

>=>-zero : (a : Answer) (f : AuthGuard → Answer) → (a >=> f).1 ≡ 0 → (a.1 ≡ 0) × ((a >=> f) ≡ f a.0)
unfolding ◌>=>◌
>=>-zero a f h = elim (Bool-cases (a.1 == 0)) [
  | inl z ↦ (ground arith, rw z)
  | inr n ↦ absurd (ground (arith, n))
]

pub check_account-Room :
    (ip d : String) (now : ℕ) (g : AuthGuard)
    → Budget g (account_key d) auth_account_failure_limit
    → Budget g (combo_key ip d) auth_combo_failure_limit
    → (check_account ip d now g).1 ≡ 0
    → Room (check_account ip d now g).0 (account_key d) auth_account_failure_limit
      × Room (check_account ip d now g).0 (combo_key ip d) auth_combo_failure_limit
unfolding check_account is_empty_key
check_account-Room ip d now g a c h =
    let first =
      check_key by_account RejectReason.account (account_key d) auth_account_failure_limit
        auth_account_failure_window (account_cooldown_max g.cfg) now g in
    let next : AuthGuard → Answer =
      check_key by_combo RejectReason.combo (combo_key ip d) auth_combo_failure_limit
        auth_combo_failure_window 0 now in
    let (z, e) = >=>-zero first next h in
    let quiet : Quiet g first.0 = check_key-Quiet _ _ _ _ _ _ now g in
    let again : Quiet first.0 (next first.0).0 = check_key-Quiet _ _ _ _ _ _ now first.0 in
    let z' : (next first.0).1 ≡ 0 = rw (← e) h in
    rw e (
      Quiet-Room first.0 (next first.0).0 (account_key d) auth_account_failure_limit again (
          check_key-zero by_account RejectReason.account (account_key d) auth_account_failure_limit
            _ _ now g refl (omega arith) a z),
      check_key-zero by_combo RejectReason.combo (combo_key ip d) auth_combo_failure_limit _ _ now
          first.0 refl (omega arith) (Quiet-Budget _ _ quiet c) z',
    )

pub reserve_keys-failures :
    (ip d : String) (g : AuthGuard) → (reserve_keys ip d g).failures ≡ g.failures
unfolding reserve_keys
reserve_keys-failures ip d g = refl

-- A reservation uses the room that the checks left, and takes none of any other key.
pub reserve_keys-Budget :
    {q : FailureKey} {limit : ℕ} (ip d : String) (g : AuthGuard)
    → Reserved q limit
    → Budget g q limit
    → Room g (account_key d) auth_account_failure_limit
    → Room g (combo_key ip d) auth_combo_failure_limit
    → Budget (reserve_keys ip d g) q limit
reserve_keys-Budget ip d g (account_limit d') b a c = record {
  within =
      ground (arith, count_of-reserve_keys (account_key d') ip d g, reserve_keys-failures ip d g);
  blocked = rw (reserve_keys-failures ip d g) b.blocked;
}
reserve_keys-Budget ip d g (combo_limit ip' d') b a c = record {
  within =
      ground (arith, count_of-reserve_keys (combo_key ip' d') ip d g, reserve_keys-failures ip d g);
  blocked = rw (reserve_keys-failures ip d g) b.blocked;
}

pub release_ticket-failures :
    (t : AuthTicket) (g : AuthGuard) → (release_ticket t g).failures ≡ g.failures
unfolding release_ticket release
release_ticket-failures t g = ground arith
