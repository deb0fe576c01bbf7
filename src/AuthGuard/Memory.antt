-- ===== src/AuthGuard/Memory.antt =====
-- The bound on the tables of internal/server/auth_guard.go.
use emby_go.Base.{
  ℕ, ◌≤◌, ◌≡◌, arith, leb, ◌==◌, if◌then◌else◌, Option, none, some, find, put, inl, inr, Bool-cases,
  Option-cases, String, string_discrete, length, length-put_old, length-put-le, length-erase-le,
  length-keep-le, not,
}
use emby_go.AuthGuard.Types.{
  AuthGuard, AuthText, TokenBucket, FailureKey, RejectReason, AuthTicket, AuthOutcome,
  invalid_password, failure_key_discrete, ip_key, account_key, combo_key, auth_account_digest,
}
use emby_go.AuthGuard.Failures.{
  window_over, reject_log, retry_for_key, drop_expired, record_failure, release, bump_entry,
  fresh_entry,
}
use emby_go.AuthGuard.Admin.{bucket_stays, window_of, gc}
use emby_go.AuthGuard.Tickets.{
  Answer, ◌>=>◌, Counted, reject, check_global, check_overflow, check_failure_room, take_ip,
  check_ip, check_key, check_ip_failures, admit_checks, admit_request, check_account, reserve_keys,
  attach_named, attach_account, release_ticket, count_ip, count_password, count_account,
  count_invalid, settle, finish,
}
use emby_go.AuthGuard.System.{step}

-- The failure table and the table of buckets hold at most `m` keys, and `m` is the configured bound.
pub record Small (m : ℕ) (g : AuthGuard) : Type 0 where
  pub failures_fit : length g.failures ≤ m
  pub buckets_fit : length g.ip_tokens ≤ m
  pub bound : g.cfg.max_keys ≡ m

module _ (m : ℕ) where
  >=>-Small :
      (a : Answer) (f : AuthGuard → Answer)
      → Small m a.0
      → ((h : AuthGuard) → Small m h → Small m (f h).0)
      → Small m (a >=> f).0
  unfolding ◌>=>◌
  >=>-Small a f s step = ground (arith, step a.0 s)

  reject-Small :
      (c : Counted) (r : RejectReason) (now : ℕ) (g : AuthGuard)
      → Small m g
      → Small m (reject c r now g)
  unfolding reject reject_log
  reject-Small c r now g s = ground arith

  answer-Small :
      (c : Counted) (reason : RejectReason) (now r : ℕ) (h : AuthGuard)
      → Small m h
      → Small m (let a : Answer = if r == 0 then (h, 0) else (reject c reason now h, r) in a).0
  answer-Small c reason now r h q = elim (Bool-cases (r == 0)) [
    | inl z ↦ rw z q
    | inr n ↦ rw n (reject-Small c reason now h q)
  ]

  gc-Small : (now : ℕ) (g : AuthGuard) → Small m g → Small m (gc now g)
  unfolding gc
  gc-Small now g s = ground (
    arith,
    length-keep-le string_discrete (bucket_stays g.cfg.ip_request_burst now) g.ip_tokens,
    length-keep-le failure_key_discrete (λ k e. not (window_over e (window_of k) now)) g.failures,
  )

  check_global-Small : (now : ℕ) (g : AuthGuard) → Small m g → Small m (check_global now g).0
  unfolding check_global
  check_global-Small now g s =
      answer-Small _ _ now _ (record g { global = _ })
        (record { failures_fit = s.failures_fit; buckets_fit = s.buckets_fit; bound = s.bound })

  check_overflow-Small : (now : ℕ) (g : AuthGuard) → Small m g → Small m (check_overflow now g).0
  unfolding check_overflow
  check_overflow-Small now g s =
      answer-Small _ _ now _ (record g { overflow = _ })
        (record { failures_fit = s.failures_fit; buckets_fit = s.buckets_fit; bound = s.bound })

  check_failure_room-Small :
      (now : ℕ) (g : AuthGuard) → Small m g → Small m (check_failure_room now g).0
  unfolding check_failure_room
  check_failure_room-Small now g s = ground (arith, check_overflow-Small now g s)

  drop_expired-length :
      (k : FailureKey) (window now : ℕ) (g : AuthGuard)
      → length (drop_expired k window now g.failures) ≤ length g.failures
  unfolding drop_expired
  drop_expired-length k window now g =
      ground (arith, length-erase-le failure_key_discrete k g.failures)

  record_failure-Small :
      (k : FailureKey) (limit window cooldown now : ℕ) (g : AuthGuard)
      → Small m g
      → Small m (record_failure k limit window cooldown now g)
  unfolding record_failure
  record_failure-Small k limit window cooldown now g s =
      let fs = drop_expired k window now g.failures in
      elim (Option-cases (find failure_key_discrete k fs)) [
        | inl e ↦ ground (
          arith,
          drop_expired-length k window now g,
          length-put-le failure_key_discrete k (bump_entry (fresh_entry now) limit cooldown now) fs,
        )
        | inr (e, h) ↦ ground (
          arith,
          drop_expired-length k window now g,
          length-put_old failure_key_discrete k (bump_entry e limit cooldown now) e fs,
        )
      ]

  take_ip-Small :
      (ip : String) (now : ℕ) (b : TokenBucket) (g : AuthGuard)
      → Small m g
      → ((c : TokenBucket) → length (put string_discrete ip c g.ip_tokens) ≤ m)
      → Small m (take_ip ip now b g).0
  unfolding take_ip
  take_ip-Small ip now b g s fits =
      answer-Small _ _ now _ (record g { ip_tokens = _ })
        (record { failures_fit = s.failures_fit; buckets_fit = fits _; bound = s.bound })

  check_ip-Small :
      (ip : String) (now : ℕ) (g : AuthGuard) → Small m g → Small m (check_ip ip now g).0
  unfolding check_ip
  check_ip-Small ip now g s = elim (Option-cases (find string_discrete ip g.ip_tokens)) [
    | inr (b, e) ↦
        rw (e, check_ip)
          (take_ip-Small ip now b g s (λ c.
            omega (arith, length-put_old string_discrete ip c b g.ip_tokens e, s.buckets_fit)))
    | inl e ↦ elim (Bool-cases (leb g.cfg.max_keys (length g.ip_tokens))) [
      | inl full ↦ rw (e, full, check_ip) (check_overflow-Small now g s)
      | inr room ↦
          rw (e, room, check_ip)
            (take_ip-Small ip now _ g s
              (λ c. ground (arith, length-put-le string_discrete ip c g.ip_tokens)))
    ]
  ]

  retry_for_key-length :
      (k : FailureKey) (limit window cooldown now : ℕ) (g : AuthGuard)
      → length (retry_for_key k limit window cooldown now g.inflight g.failures).0
        ≤ length g.failures
  unfolding retry_for_key
  retry_for_key-length k limit window cooldown now g = ground (
    arith,
    drop_expired-length k window now g,
    length-erase-le failure_key_discrete k (drop_expired k window now g.failures),
  )

  check_key-Small :
      (c : Counted) (reason : RejectReason) (k : FailureKey) (limit window cooldown now : ℕ)
      (g : AuthGuard)
      → Small m g
      → Small m (check_key c reason k limit window cooldown now g).0
  unfolding check_key
  check_key-Small c reason k limit window cooldown now g s =
      answer-Small c reason now _ (record g { failures = _ })
        (record {
          failures_fit =
              omega (arith, retry_for_key-length k limit window cooldown now g, s.failures_fit);
          buckets_fit = s.buckets_fit;
          bound = s.bound;
        })

  admit_checks-Small :
      (ip : String) (now : ℕ) (g : AuthGuard) → Small m g → Small m (admit_checks ip now g).0
  unfolding admit_checks check_ip_failures
  admit_checks-Small ip now g s =
      >=>-Small _ (check_ip_failures ip now)
        (>=>-Small _ (check_ip ip now)
          (>=>-Small _ (check_failure_room now)
            (check_global-Small now (gc now g) (gc-Small now g s)) (check_failure_room-Small now))
          (check_ip-Small ip now))
        (λ h. check_key-Small _ _ _ _ _ _ now h)

  pub admit_request-Small :
      (ip : String) (now : ℕ) (g : AuthGuard) → Small m g → Small m (admit_request ip now g).0
  unfolding admit_request
  admit_request-Small ip now g s = ground (arith, admit_checks-Small ip now g s)

  check_account-Small :
      (ip d : String) (now : ℕ) (g : AuthGuard) → Small m g → Small m (check_account ip d now g).0
  unfolding check_account
  check_account-Small ip d now g s =
      >=>-Small (check_key Counted.by_account RejectReason.account _ _ _ _ now g)
        (check_key Counted.by_combo RejectReason.combo _ _ _ _ now)
        (check_key-Small _ _ _ _ _ _ now g s) (λ h. check_key-Small _ _ _ _ _ _ now h)

  attach_named-Small :
      (d : String) (now : ℕ) (t : AuthTicket) (g : AuthGuard)
      → Small m g
      → Small m (attach_named d now t g).0
  unfolding attach_named reserve_keys
  attach_named-Small d now t g s = ground (arith, check_account-Small t.ip d now g s)

  pub attach_account-Small :
      (text : AuthText) (username : String) (now : ℕ) (t : AuthTicket) (g : AuthGuard)
      → Small m g
      → Small m (attach_account text username now t g).0
  unfolding attach_account
  attach_account-Small text username now t g s =
      ground
        (arith, attach_named-Small (auth_account_digest text (text.trim_space username)) now t g s)

  release_ticket-Small : (t : AuthTicket) (g : AuthGuard) → Small m g → Small m (release_ticket t g)
  unfolding release_ticket release
  release_ticket-Small t g s = ground arith

  count_account-Small :
      (ip : String) (account : Option String) (now : ℕ) (g : AuthGuard)
      → Small m g
      → Small m (count_account ip account now g)
  unfolding count_account
  count_account-Small ip none now g s = s
  count_account-Small ip (some d) now g s =
      record_failure-Small (combo_key ip d) _ _ _ now _
        (record_failure-Small (account_key d) _ _ _ now g s)

  settle-Small :
      (outcome : AuthOutcome) (t : AuthTicket) (now : ℕ) (g : AuthGuard)
      → Small m g
      → Small m (settle outcome t now g)
  unfolding settle count_invalid count_ip count_password
  settle-Small invalid_password t now g s = count_account-Small t.ip t.account now _ (
      record_failure-Small (ip_key t.ip) _ _ _ now _
        (record { failures_fit = s.failures_fit; buckets_fit = s.buckets_fit; bound = s.bound }))
  settle-Small _ t now g s = ground arith

  pub finish-Small :
      (outcome : AuthOutcome) (now : ℕ) (t : AuthTicket) (g : AuthGuard)
      → Small m g
      → Small m (finish outcome now t g).0
  unfolding finish
  finish-Small outcome now t g s =
      ground (arith, settle-Small outcome t now (release_ticket t g) (release_ticket-Small t g s))
