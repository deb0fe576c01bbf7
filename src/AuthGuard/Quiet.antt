-- ===== src/AuthGuard/Quiet.antt =====
-- The checks of internal/server/auth_guard.go reserve nothing, and only take entries out of the
-- failure table.
use emby_go.Base.{
  ℕ, ◌*◌, ◌≡◌, refl, arith, leb, ◌==◌, if◌then◌else◌, Bool, true, false, Option, none, some, find,
  inl, inr, Bool-cases, String, string_discrete, find-keep, if_pos, if_neg, Option-cases, length,
  not,
}
use emby_go.AuthGuard.Types.{
  AuthGuard, AuthText, TokenBucket, FailureKey, RejectReason, account, combo, token,
  failure_key_discrete,
}
use emby_go.AuthGuard.Failures.{window_over, reject_log}
use emby_go.AuthGuard.Admin.{
  window_of, gc, forget_account, on_credential_commit_success, unlock_at, unlock, UnlockTarget,
  account_target, ip_target, other_target, unlock_target,
}
use emby_go.AuthGuard.Tickets.{
  Answer, ◌>=>◌, Counted, by_account, by_combo, admit_checks, reject, check_global, check_overflow,
  check_failure_room, take_ip, check_ip, check_key, check_ip_failures, check_account,
}
use emby_go.AuthGuard.Load.{
  Shrinks, Shrinks-trans, erase-Shrinks, keep-Shrinks, retry_for_key-Shrinks,
}

pub record Quiet (g h : AuthGuard) : Type 0 where
  pub fewer : Shrinks g.failures h.failures
  pub same : h.inflight ≡ g.inflight
  pub config : h.cfg ≡ g.cfg

pub Quiet-refl : (g : AuthGuard) → Quiet g g
Quiet-refl g = record { fewer = λ q. inl refl; same = refl; config = refl }

pub Quiet-trans : {g h k : AuthGuard} → Quiet g h → Quiet h k → Quiet g k
Quiet-trans {g} {h} {k} a b = record {
  fewer = Shrinks-trans g.failures h.failures k.failures a.fewer b.fewer;
  same = ground arith;
  config = ground arith;
}

-- Equal failures, reservations and configuration.
Quiet-of_eq :
    {g h : AuthGuard}
    → h.failures ≡ g.failures
    → h.inflight ≡ g.inflight
    → h.cfg ≡ g.cfg
    → Quiet g h
Quiet-of_eq {g} {h} f i c = record { fewer = λ q. rw f (inl refl); same = i; config = c }

>=>-Quiet :
    {g : AuthGuard} (a : Answer) (f : AuthGuard → Answer)
    → Quiet g a.0
    → ((h : AuthGuard) → Quiet h (f h).0)
    → Quiet g (a >=> f).0
unfolding ◌>=>◌
>=>-Quiet a f q step = ground (arith, Quiet-trans q (step a.0))

reject-Quiet :
    (c : Counted) (reason : RejectReason) (now : ℕ) (g : AuthGuard)
    → Quiet g (reject c reason now g)
unfolding reject reject_log
reject-Quiet c reason now g = Quiet-of_eq (ground arith) (ground arith) (ground arith)

pub gc-Quiet : (now : ℕ) (g : AuthGuard) → Quiet g (gc now g)
unfolding gc
gc-Quiet now g = record {
  fewer = λ q. ground (
    arith,
    find-keep failure_key_discrete (λ k e. not (window_over e (window_of k) now)) q g.failures,
  );
  same = ground arith;
  config = ground arith;
}

-- An answer that refuses by `reject` or goes on with the guard.
answer-Quiet :
    (c : Counted) (reason : RejectReason) (now r : ℕ) {g : AuthGuard} (h : AuthGuard)
    → Quiet g h
    → Quiet g (let a : Answer = if r == 0 then (h, 0) else (reject c reason now h, r) in a).0
answer-Quiet c reason now r h q = elim (Bool-cases (r == 0)) [
  | inl z ↦ rw z q
  | inr n ↦ rw n (Quiet-trans q (reject-Quiet c reason now h))
]

check_global-Quiet : (now : ℕ) (g : AuthGuard) → Quiet g (check_global now g).0
unfolding check_global
check_global-Quiet now g =
    answer-Quiet _ _ now _ (record g { global = _ }) (Quiet-of_eq refl refl refl)

check_overflow-Quiet : (now : ℕ) (g : AuthGuard) → Quiet g (check_overflow now g).0
unfolding check_overflow
check_overflow-Quiet now g =
    answer-Quiet _ _ now _ (record g { overflow = _ }) (Quiet-of_eq refl refl refl)

check_failure_room-Quiet : (now : ℕ) (g : AuthGuard) → Quiet g (check_failure_room now g).0
unfolding check_failure_room
check_failure_room-Quiet now g = ground (arith, check_overflow-Quiet now g, Quiet-refl g)

take_ip-Quiet :
    (ip : String) (now : ℕ) (b : TokenBucket) (g : AuthGuard) → Quiet g (take_ip ip now b g).0
unfolding take_ip
take_ip-Quiet ip now b g =
    answer-Quiet _ _ now _ (record g { ip_tokens = _ }) (Quiet-of_eq refl refl refl)

check_ip-Quiet : (ip : String) (now : ℕ) (g : AuthGuard) → Quiet g (check_ip ip now g).0
unfolding check_ip
check_ip-Quiet ip now g = elim (Option-cases (find string_discrete ip g.ip_tokens)) [
  | inr (b, e) ↦ rw (e, check_ip) (take_ip-Quiet ip now b g)
  | inl e ↦ rw (e, check_ip) (new_ip (leb g.cfg.max_keys (length g.ip_tokens)))
]
  where
    new_ip :
        (full : Bool)
        → Quiet g
            (let a : Answer =
                if full
                then check_overflow now g
                else take_ip ip now
                    (record { tokens = g.cfg.ip_request_burst * token; last = now })
                    g in
              a).0
    new_ip true = check_overflow-Quiet now g
    new_ip false = take_ip-Quiet ip now _ g

pub check_key-Quiet :
    (c : Counted) (reason : RejectReason) (k : FailureKey) (limit window cooldown now : ℕ)
    (g : AuthGuard)
    → Quiet g (check_key c reason k limit window cooldown now g).0
unfolding check_key
check_key-Quiet c reason k limit window cooldown now g =
    answer-Quiet c reason now _ (record g { failures = _ })
      (record {
        fewer = retry_for_key-Shrinks k limit window cooldown now g.inflight g.failures;
        same = refl;
        config = refl;
      })

pub admit_checks-Quiet : (ip : String) (now : ℕ) (g : AuthGuard) → Quiet g (admit_checks ip now g).0
unfolding admit_checks check_ip_failures
admit_checks-Quiet ip now g =
    >=>-Quiet _ (check_ip_failures ip now)
      (>=>-Quiet _ (check_ip ip now)
        (>=>-Quiet _ (check_failure_room now)
          (Quiet-trans (gc-Quiet now g) (check_global-Quiet now (gc now g)))
          (check_failure_room-Quiet now))
        (check_ip-Quiet ip now))
      (λ h. check_key-Quiet _ _ _ _ _ _ now h)

pub check_account-Quiet :
    (ip digest : String) (now : ℕ) (g : AuthGuard) → Quiet g (check_account ip digest now g).0
unfolding check_account
check_account-Quiet ip digest now g =
    >=>-Quiet (check_key by_account account _ _ _ _ now g) (check_key by_combo combo _ _ _ _ now)
      (check_key-Quiet _ _ _ _ _ _ now g) (λ h. check_key-Quiet _ _ _ _ _ _ now h)

forget_account-Shrinks :
    (digest : String) (g : AuthGuard) → Shrinks g.failures (forget_account digest g.failures)
unfolding forget_account
forget_account-Shrinks digest g =
    Shrinks-trans g.failures _ _ (erase-Shrinks _ g.failures) (keep-Shrinks _ _)

pub commit-Quiet :
    (text : AuthText) (username : String) (g : AuthGuard)
    → Quiet g (on_credential_commit_success text username g)
unfolding on_credential_commit_success
commit-Quiet text username g = elim (string_discrete (text.trim_space username) "") [
  | yes e ↦ rw (if_pos _ e) (Quiet-refl g)
  | no e ↦
      rw (if_neg _ e) (record { fewer = forget_account-Shrinks _ g; same = refl; config = refl })
]

unlock_at-Quiet :
    (text : AuthText) (target : UnlockTarget) (g : AuthGuard) → Quiet g (unlock_at text target g).0
unfolding unlock_at
unlock_at-Quiet text (account_target value) g = record {
  fewer = forget_account-Shrinks _ g;
  same = refl;
  config = refl;
}
unlock_at-Quiet text (ip_target none) g = Quiet-refl g
unlock_at-Quiet text (ip_target (some ip)) g = record {
  fewer = erase-Shrinks _ g.failures;
  same = refl;
  config = refl;
}
unlock_at-Quiet text other_target g = Quiet-refl g

pub unlock-Quiet :
    (text : AuthText) (parse_ip : String → Option String) (target value : String) (g : AuthGuard)
    → Quiet g (unlock text parse_ip target value g).0
unfolding unlock
unlock-Quiet text parse_ip target value g =
    unlock_at-Quiet text (unlock_target text parse_ip target value) g
