-- ===== src/AuthGuard/Tests.antt =====
-- Runs of the guard of internal/server/auth_guard.go at concrete inputs.
use emby_go.Base.{
  ◌+◌, ◌-◌, ◌*◌, ◌≤◌, ◌<◌, ◌≡◌, refl, ◌≢◌, List, [], ◌∷◌, arith, true, false, Option, none, some,
  String, find, Table, length, total, string_discrete, ◌⊎◌,
}
use text.Mathlib.TextEquality.{eq_iff}
use emby_go.AuthGuard.Types.{
  AuthGuard, AuthGuardConfig, AuthText, AuthTicket, AuthFailureEntry, invalid_password,
  password_verified, FailureKey, ip_key, account_key, combo_key, failure_key_discrete, second,
  minute, token, per_second, auth_account_digest, auth_account_failure_limit,
  auth_combo_failure_limit,
}
use emby_go.AuthGuard.Failures.{count_of, retry_for_key, is_empty_key}
use emby_go.AuthGuard.Load.{failures_at}
use emby_go.AuthGuard.Admin.{on_credential_commit_success}
use emby_go.AuthGuard.Tickets.{finish}
use emby_go.AuthGuard.System.{
  System, Event, admits, attaches, finishes, run, start, new_auth_guard, normalize,
}
use emby_go.AuthGuard.Rate.{granted, granted_bound}
use emby_go.AuthGuard.Budget.{holds}
use emby_go.AuthGuard.Interleaving.{run_budget}
use emby_go.AuthGuard.Bounded.{run_bounded}
use emby_go.AuthGuard.Outcomes.{finish_once, commit_clears}
use emby_go.AuthGuard.Limits.{retry_exactly}

-- Text as it stands.
abbrev plain : AuthText
plain = record { trim_space = λ s. s; to_lower = λ s. s; sha256_hex = λ s. s }

abbrev no_ip : String → Option String
no_ip s = none

abbrev defaults : AuthGuardConfig
defaults = record {
  ip_request_rate = 0;
  ip_request_burst = 0;
  global_request_rate = 0;
  global_request_burst = 0;
  bcrypt_concurrency = 0;
  credential_body_bytes = 0;
  max_keys = 0;
  account_cooldown_max_seconds = 0;
}

-- Two requests for one account from one source, with a wrong and a right password.
abbrev calls : List Event
calls =
    admits "10.0.0.1" (10 * second)
    ∷ admits "10.0.0.1" (10 * second)
    ∷ attaches 0 "ada" (11 * second)
    ∷ attaches 1 "ada" (11 * second)
    ∷ finishes 0 invalid_password (12 * second)
    ∷ []

abbrev after_calls : System
after_calls = run plain no_ip calls (start defaults second)

run_budget_example :
    (failures_at (account_key "ada") after_calls.guard.failures
        + count_of (account_key "ada") after_calls.guard.inflight
      ≤ auth_account_failure_limit)
    × (failures_at (combo_key "10.0.0.1" "ada") after_calls.guard.failures
          + count_of (combo_key "10.0.0.1" "ada") after_calls.guard.inflight
        ≤ auth_combo_failure_limit)
    × (count_of (account_key "ada") after_calls.guard.inflight
        ≡ total (holds (account_key "ada")) after_calls.tickets)
run_budget_example = run_budget plain no_ip defaults second calls "10.0.0.1" "ada"

run_bounded_example :
    (length after_calls.guard.failures ≤ (normalize defaults).max_keys)
    × (length after_calls.guard.ip_tokens ≤ (normalize defaults).max_keys)
run_bounded_example = run_bounded plain no_ip defaults second calls

granted_bound_example :
    granted
        (record { tokens = 2 * token; last = second })
        per_second
        (2 * token)
        (second ∷ second ∷ second ∷ 2 * second ∷ [])
      * token
    ≤ 2 * token + (3 * second - second) * per_second
granted_bound_example =
    granted_bound (record { tokens = 2 * token; last = second }) per_second (2 * token) (3 * second)
      (second ∷ second ∷ second ∷ 2 * second ∷ []) (omega arith) (omega arith)

abbrev reserved_ticket : AuthTicket
reserved_ticket = record {
  ip = "10.0.0.1";
  account = some "ada";
  reserved = true;
  finished = false;
}

finish_once_example :
    let (g', t') = finish password_verified second reserved_ticket (new_auth_guard defaults 1) in
    (finish invalid_password minute t' g' ≡ (g', t'))
    × (password_verified ≢ invalid_password → g'.failures ≡ (new_auth_guard defaults 1).failures)
    × (t'.finished ≡ true)
finish_once_example =
    finish_once password_verified invalid_password second minute reserved_ticket
      (new_auth_guard defaults 1)

abbrev entry : AuthFailureEntry
entry = record { failures = 10; window_start = minute; blocked_at = 2 * minute }

abbrev stored : Table FailureKey AuthFailureEntry
stored = (account_key "ada", entry) ∷ []

ada_stored : find failure_key_discrete (account_key "ada") stored ≡ some entry
unfolding find failure_key_discrete string_discrete
ada_stored = refl

ada_named : is_empty_key (account_key "ada") ≡ false
unfolding is_empty_key
ada_named = refl

retry_exactly_example :
    let r =
      (retry_for_key (account_key "ada") 10 (15 * minute) (5 * minute) (3 * minute) [] stored).1 in
    (r ≤ 15 * minute)
    × (0 < 5 * minute
        → entry.blocked_at ≢ 0
        → 3 * minute < entry.window_start + 15 * minute
        → r ≤ 5 * minute)
    × (3 * minute < entry.window_start + 15 * minute
        → entry.failures + count_of (account_key "ada") [] < 10
        → r ≡ 0)
    × (entry.window_start + 15 * minute ≤ 3 * minute → count_of (account_key "ada") [] < 10 → r ≡ 0)
    × (3 * minute < entry.window_start + 15 * minute
        → 10 ≤ entry.failures + count_of (account_key "ada") []
        → (5 * minute ≡ 0) ⊎ ((entry.blocked_at ≡ 0) ⊎ (3 * minute < entry.blocked_at + 5 * minute))
        → 0 < r)
retry_exactly_example =
    retry_exactly (account_key "ada") 10 (15 * minute) (5 * minute) (3 * minute) [] stored entry
      ada_named ada_stored (omega arith) (omega arith)

ada_not_blank : plain.trim_space "ada" ≢ ""
ada_not_blank = ground (arith, eq_iff "ada" "")

abbrev blocked_guard : AuthGuard
blocked_guard = record (new_auth_guard defaults 1) { failures = stored }

commit_clears_example :
    let h = on_credential_commit_success plain "ada" blocked_guard in
    let d = auth_account_digest plain (plain.trim_space "ada") in
    (find failure_key_discrete (account_key d) h.failures ≡ none)
    × (find failure_key_discrete (combo_key "10.0.0.1" d) h.failures ≡ none)
    × (find failure_key_discrete (ip_key "10.0.0.1") h.failures
        ≡ find failure_key_discrete (ip_key "10.0.0.1") blocked_guard.failures)
    × ("bob" ≢ d
        → (find failure_key_discrete (account_key "bob") h.failures
            ≡ find failure_key_discrete (account_key "bob") blocked_guard.failures)
          × (find failure_key_discrete (combo_key "10.0.0.1" "bob") h.failures
              ≡ find failure_key_discrete (combo_key "10.0.0.1" "bob") blocked_guard.failures))
commit_clears_example = commit_clears plain "ada" blocked_guard "10.0.0.1" "bob" ada_not_blank
