-- ===== src/AuthGuard/Admin.antt =====
-- What clears the guard of internal/server/auth_guard.go: `gcLocked`, the commit of a credential
-- (`OnCredentialCommitSuccess`) and the administrator's `Unlock`.
use emby_go.Base.{
  ℕ, ◌*◌, ◌-◌, ltb, leb, ◌==◌, if◌then◌else◌, Bool, true, false, not, ◌&&◌, Option, none, some,
  Table, erase, keep, string_discrete, String, ite,
}
use emby_go.AuthGuard.Types.{
  AuthGuard, AuthText, TokenBucket, AuthFailureEntry, FailureKey, empty_key, ip_key, account_key,
  combo_key, failure_key_discrete, reject_reason_discrete, minute, token, auth_guard_gc_period,
  auth_guard_key_idle, auth_ip_failure_window, auth_account_failure_window,
  auth_combo_failure_window, auth_account_digest,
}
use emby_go.AuthGuard.Failures.{window_over}

-- The window that the collector applies to a key, by the key's prefix.
unfoldable pub window_of : FailureKey → ℕ
window_of empty_key = auth_ip_failure_window
window_of (ip_key ip) = auth_ip_failure_window
window_of (account_key d) = auth_account_failure_window
window_of (combo_key ip d) = auth_combo_failure_window

-- A bucket stays unless it was idle for ten minutes and is full.
unfoldable pub bucket_stays : ℕ → ℕ → String → TokenBucket → Bool
bucket_stays burst now ip b =
    not (ltb auth_guard_key_idle (now - b.last) && leb (burst * token) b.tokens)

unfoldable pub gc : ℕ → AuthGuard → AuthGuard
unfolding window_of bucket_stays window_over
gc now g =
    if not (g.last_gc == 0) && ltb (now - g.last_gc) auth_guard_gc_period then g else record g {
      last_gc = now;
      ip_tokens = keep string_discrete (bucket_stays g.cfg.ip_request_burst now) g.ip_tokens;
      failures =
          keep failure_key_discrete (λ k e. not (window_over e (window_of k) now)) g.failures;
      last_reject_log =
          keep reject_reason_discrete (λ _ at. not (ltb (10 * minute) (now - at)))
            g.last_reject_log;
    }

-- `strings.HasPrefix(key, "combo:") && strings.HasSuffix(key, "|"+accountKey)`
unfoldable pub is_combo_of : String → FailureKey → Bool
is_combo_of digest empty_key = false
is_combo_of digest (ip_key ip) = false
is_combo_of digest (account_key d) = false
is_combo_of digest (combo_key ip d) = ite (string_discrete d digest) true false

-- The failures without the account's and without those of its combinations with a source.
unfoldable pub forget_account :
    String → Table FailureKey AuthFailureEntry → Table FailureKey AuthFailureEntry
unfolding is_combo_of
forget_account digest t =
    keep failure_key_discrete (λ k _. not (is_combo_of digest k))
      (erase failure_key_discrete (account_key digest) t)

unfoldable pub on_credential_commit_success : AuthText → String → AuthGuard → AuthGuard
unfolding forget_account
on_credential_commit_success text username g =
    let name = text.trim_space username in
    ite (string_discrete name "") g
      (record g { failures = forget_account (auth_account_digest text name) g.failures })

-- `Unlock`: the target type is spelled out, and an address is parsed by Go's netip.
pub data UnlockTarget : Type 0 where
  account_target : String → UnlockTarget
  ip_target : Option String → UnlockTarget
  other_target : UnlockTarget

-- The switch on the trimmed, lower-case target type; `parse_ip` is `netip.ParseAddr` with
-- `Unmap().String()`.
unfoldable pub unlock_target : AuthText → (String → Option String) → String → String → UnlockTarget
unlock_target text parse_ip target value =
    let kind = text.to_lower (text.trim_space target) in
    ite (string_discrete kind "account") (account_target value)
      (ite (string_discrete kind "ip") (ip_target (parse_ip (text.trim_space value))) other_target)

unfoldable pub unlock_at : AuthText → UnlockTarget → AuthGuard → AuthGuard × Bool
unfolding forget_account
unlock_at text (account_target value) g =
    (record g { failures = forget_account (auth_account_digest text value) g.failures }, true)
unlock_at text (ip_target none) g = (g, false)
unlock_at text (ip_target (some ip)) g = (
  record g {
    failures = erase failure_key_discrete (ip_key ip) g.failures;
    ip_tokens = erase string_discrete ip g.ip_tokens;
  },
  true,
)
unlock_at text other_target g = (g, false)

unfoldable pub unlock :
    AuthText → (String → Option String) → String → String → AuthGuard → AuthGuard × Bool
unfolding unlock_target unlock_at
unlock text parse_ip target value g = unlock_at text (unlock_target text parse_ip target value) g
