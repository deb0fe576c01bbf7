-- ===== src/AuthGuard/Failures.antt =====
-- The failure windows of internal/server/auth_guard.go: `recordFailureLocked`,
-- `retryForKeyLocked`, `releaseLocked` and `rejectLogLocked`.
use emby_go.Base.{
  ℕ, ◌+◌, ◌-◌, ltb, leb, ◌==◌, if◌then◌else◌, min, Bool, true, false, not, ◌&&◌, none, some, Table,
  find, put, erase, length,
}
use emby_go.AuthGuard.Types.{
  AuthGuard, AuthFailureEntry, FailureKey, empty_key, ip_key, account_key, combo_key, RejectReason,
  failure_key_discrete, reject_reason_discrete, second, auth_reject_log_min_interval,
}

-- The number of reservations in flight under a key: a missing key reads 0.
unfoldable pub count_of : FailureKey → Table FailureKey ℕ → ℕ
count_of k t = elim (find failure_key_discrete k t) [ none ↦ 0 | some n ↦ n ]

-- `g.inflight[key]++`
unfoldable pub reserve : FailureKey → Table FailureKey ℕ → Table FailureKey ℕ
unfolding count_of
reserve k t = put failure_key_discrete k (count_of k t + 1) t

-- `releaseLocked` on a key that is not empty.
unfoldable pub release_entry : FailureKey → Table FailureKey ℕ → Table FailureKey ℕ
unfolding count_of
release_entry k t =
    let n = count_of k t in
    if ltb 1 n then put failure_key_discrete k (n - 1) t else erase failure_key_discrete k t

unfoldable pub is_empty_key : FailureKey → Bool
is_empty_key empty_key = true
is_empty_key (ip_key i) = false
is_empty_key (account_key d) = false
is_empty_key (combo_key i d) = false

unfoldable pub release : FailureKey → AuthGuard → AuthGuard
unfolding release_entry is_empty_key
release k g = if is_empty_key k then g else record g { inflight = release_entry k g.inflight }

-- `!now.Before(entry.windowStart.Add(window))`
unfoldable pub window_over : AuthFailureEntry → ℕ → ℕ → Bool
window_over e window now = leb (e.window_start + window) now

-- The failures of a key: an entry whose window is over is deleted first.
unfoldable pub drop_expired :
    FailureKey → ℕ → ℕ → Table FailureKey AuthFailureEntry → Table FailureKey AuthFailureEntry
unfolding window_over
drop_expired key window now t = elim (find failure_key_discrete key t) [
  | none ↦ t
  | some e ↦ if window_over e window now then erase failure_key_discrete key t else t
]

-- One more failure in the entry, with the start of the cooldown where the limit is reached.
unfoldable pub bump_entry : AuthFailureEntry → ℕ → ℕ → ℕ → AuthFailureEntry
bump_entry e limit cooldown now =
    let n = e.failures + 1 in
    record e {
      failures = n;
      blocked_at = if ltb 0 cooldown && leb limit n && e.blocked_at == 0 then now else e.blocked_at;
    }

abbrev pub fresh_entry : ℕ → AuthFailureEntry
fresh_entry now = record { failures = 0; window_start = now; blocked_at = 0 }

unfoldable pub record_failure : FailureKey → ℕ → ℕ → ℕ → ℕ → AuthGuard → AuthGuard
unfolding drop_expired bump_entry
record_failure key limit window cooldown now g =
    let fs = drop_expired key window now g.failures in
    elim (find failure_key_discrete key fs) [
      | none ↦
          if leb g.cfg.max_keys (length fs)
          then record g {
            failures = fs;
            counters = record (g.counters) { rejected_overflow = g.counters.rejected_overflow + 1 };
          }
          else record g {
            failures =
                put failure_key_discrete key (bump_entry (fresh_entry now) limit cooldown now) fs;
          }
      | some e ↦ record g {
        failures = put failure_key_discrete key (bump_entry e limit cooldown now) fs;
      }
    ]

-- The moment when the wait of a key at its limit ends; the cooldown ends with the window at the
-- latest.
unfoldable pub is_cooling : AuthFailureEntry → ℕ → Bool
is_cooling e cooldown = ltb 0 cooldown && not (e.blocked_at == 0)

unfoldable pub until_of : AuthFailureEntry → ℕ → ℕ → ℕ
unfolding is_cooling
until_of e window cooldown =
    if is_cooling e cooldown
    then min (e.blocked_at + cooldown) (e.window_start + window)
    else e.window_start + window

-- What an entry asks of a new attempt: go on, go on with the entry deleted, or wait.
pub data KeyVerdict : Type 0 where
  pass forget : KeyVerdict
  wait : ℕ → KeyVerdict

unfoldable pub entry_verdict : AuthFailureEntry → ℕ → ℕ → ℕ → ℕ → ℕ → KeyVerdict
unfolding until_of is_cooling
entry_verdict e inflight limit window cooldown now =
    let until = until_of e window cooldown in
    if ltb (e.failures + inflight) limit
    then pass
    else if is_cooling e cooldown && leb until now
    then forget
    else wait (until - now)

-- `retryForKeyLocked`: the failures that stay, and 0 or the time to wait.
unfoldable pub retry_for_key :
    FailureKey
    → ℕ
    → ℕ
    → ℕ
    → ℕ
    → Table FailureKey ℕ
    → Table FailureKey AuthFailureEntry
    → Table FailureKey AuthFailureEntry × ℕ
unfolding drop_expired entry_verdict count_of is_empty_key
retry_for_key key limit window cooldown now inflight failures =
    let fs = drop_expired key window now failures in
    if is_empty_key key then (failures, 0) else elim (find failure_key_discrete key fs) [
      | none ↦ if leb limit (count_of key inflight) then (fs, second) else (fs, 0)
      | some e ↦ elim (entry_verdict e (count_of key inflight) limit window cooldown now) [
        | pass ↦ (fs, 0)
        | forget ↦ (erase failure_key_discrete key fs, 0)
        | wait d ↦ (fs, d)
      ]
    ]

-- `rejectLogLocked`: at most one line for a reason in 30 seconds.
unfoldable pub reject_log : RejectReason → ℕ → AuthGuard → AuthGuard
reject_log reason now g =
    let logged = record g {
      last_reject_log = put reject_reason_discrete reason now g.last_reject_log;
      counters = record (g.counters) { rate_limited_logged = g.counters.rate_limited_logged + 1 };
    } in
    elim (find reject_reason_discrete reason g.last_reject_log) [
      | none ↦ logged
      | some last ↦ if ltb (now - last) auth_reject_log_min_interval then g else logged
    ]
