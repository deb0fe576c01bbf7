-- ===== src/AuthGuard/Limits.antt =====
-- How long a key waits at its limit in internal/server/auth_guard.go.
use emby_go.Base.{
  ℕ, ◌+◌, ◌≤◌, ◌<◌, ◌≡◌, ◌≢◌, arith, true, false, none, some, find, Table, Bool-cases, inl, inr,
  find-erase, ◌⊎◌,
}
use emby_go.AuthGuard.Types.{AuthFailureEntry, FailureKey, failure_key_discrete, second}
use emby_go.AuthGuard.Failures.{count_of, retry_for_key, drop_expired, window_over, is_empty_key}

-- An entry that started by `now`, its cooldown too.
abbrev pub IsPast : ℕ → AuthFailureEntry → Type 0
IsPast now e = (e.window_start ≤ now) × (e.blocked_at ≤ now)

module _ (k : FailureKey) (limit window cooldown now : ℕ) (inflight : Table FailureKey ℕ)
    (t : Table FailureKey AuthFailureEntry) (e : AuthFailureEntry) (named : is_empty_key k ≡ false)
    (stored : find failure_key_discrete k t ≡ some e) where
  -- For a named key with a stored entry that started by now, under a window of a second or more: the
  -- wait is never longer than the window, nor, in the window, than a cooldown that has begun; it is 0
  -- in the window below the limit, and 0 after the window while fewer than the limit are in flight;
  -- in the window and at the limit it is positive unless a cooldown that has begun is over.
  pub retry_exactly :
      IsPast now e
      → second ≤ window
      → let r = (retry_for_key k limit window cooldown now inflight t).1 in
        (r ≤ window)
        × (0 < cooldown → e.blocked_at ≢ 0 → now < e.window_start + window → r ≤ cooldown)
        × (now < e.window_start + window → e.failures + count_of k inflight < limit → r ≡ 0)
        × (e.window_start + window ≤ now → count_of k inflight < limit → r ≡ 0)
        × (now < e.window_start + window
            → limit ≤ e.failures + count_of k inflight
            → (cooldown ≡ 0) ⊎ ((e.blocked_at ≡ 0) ⊎ (now < e.blocked_at + cooldown))
            → 0 < r)
  unfolding retry_for_key
  retry_exactly past pos = elim (Bool-cases (window_over e window now)) [
    | inl over ↦
        let gone : find failure_key_discrete k (drop_expired k window now t) ≡ none =
          dropped over in
        (
          ground (arith, gone),
          λ c b live. absurd (open_window over live),
          λ live below. absurd (open_window over live),
          λ ended few. ground (arith, gone),
          λ live full held. absurd (open_window over live),
        )
    | inr live ↦
        let same : drop_expired k window now t ≡ t = kept live in
        (
          ground (arith, same, stored),
          λ c b open_. ground (arith, same, stored),
          λ open_ below. ground (arith, same, stored),
          λ ended few. absurd (closed_window live ended),
          λ open_ full held. ground (arith, same, stored),
        )
  ]
    where
      dropped :
          window_over e window now ≡ true
          → find failure_key_discrete k (drop_expired k window now t) ≡ none
      dropped over =
          rw (stored, drop_expired)
            (rw over (ground (arith, find-erase failure_key_discrete k k t)))

      kept : window_over e window now ≡ false → drop_expired k window now t ≡ t
      kept live = rw (stored, drop_expired) (rw live)

      open_window : window_over e window now ≡ true → now < e.window_start + window → ⊥
      open_window over live = ground arith

      closed_window : window_over e window now ≡ false → e.window_start + window ≤ now → ⊥
      closed_window live ended = ground arith
