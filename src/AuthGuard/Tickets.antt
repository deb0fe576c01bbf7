-- ===== src/AuthGuard/Tickets.antt =====
-- The life of one credential request in internal/server/auth_guard.go: `AdmitRequest`,
-- `AttachAccount` and `Finish`.
use emby_go.Base.{
  ℕ, ◌+◌, ◌*◌, leb, ◌==◌, if◌then◌else◌, true, false, ◌||◌, Option, none, some, find, put, length,
  string_discrete, String, ite,
}
use emby_go.AuthGuard.Types.{
  AuthGuard, AuthText, AuthTicket, AuthGuardCounters, AuthOutcome, interrupted, invalid_password,
  password_verified, storage_failure, TokenBucket, FailureKey, ip_key, account_key, combo_key,
  RejectReason, token, per_second, auth_ip_failure_limit, auth_ip_failure_window,
  auth_account_failure_limit, auth_account_failure_window, auth_combo_failure_limit,
  auth_combo_failure_window, account_cooldown_max, auth_account_digest, auth_account_key,
  auth_combo_key,
}
use emby_go.AuthGuard.Bucket.{take}
use emby_go.AuthGuard.Failures.{reserve, release, record_failure, retry_for_key, reject_log}
use emby_go.AuthGuard.Admin.{gc}

-- One attempt at the overflow bucket.
unfoldable pub take_overflow : ℕ → AuthGuard → AuthGuard × ℕ
take_overflow now g =
    let (b, retry) = take g.overflow per_second (10 * token) now in
    (record g { overflow = b }, retry)

pub data Counted : Type 0 where
  by_ip by_global by_account by_combo by_overflow : Counted

unfoldable pub count_reject : Counted → AuthGuardCounters → AuthGuardCounters
count_reject by_ip c = record c { rejected_ip = c.rejected_ip + 1 }
count_reject by_global c = record c { rejected_global = c.rejected_global + 1 }
count_reject by_account c = record c { rejected_account = c.rejected_account + 1 }
count_reject by_combo c = record c { rejected_combo = c.rejected_combo + 1 }
count_reject by_overflow c = record c { rejected_overflow = c.rejected_overflow + 1 }

-- A refusal counts, and logs.
unfoldable pub reject : Counted → RejectReason → ℕ → AuthGuard → AuthGuard
unfolding count_reject
reject kind reason now g =
    reject_log reason now (record g { counters = count_reject kind g.counters })

-- The answer to an attempt: the guard, and 0 or the wait.
abbrev pub Answer : Type 0
Answer = AuthGuard × ℕ

-- The next check runs if the one before asks for no wait.
infixl 5 ◌>=>◌
unfoldable pub ◌>=>◌ : Answer → (AuthGuard → Answer) → Answer
a >=> f = if a.1 == 0 then f a.0 else a

unfoldable pub check_global : ℕ → AuthGuard → Answer
check_global now g =
    let (b, retry) =
      take g.global g.cfg.global_request_rate (g.cfg.global_request_burst * token) now in
    let h = record g { global = b } in
    if retry == 0 then (h, 0) else (reject by_global RejectReason.global now h, retry)

unfoldable pub check_overflow : ℕ → AuthGuard → Answer
unfolding take_overflow
check_overflow now g =
    let (h, retry) = take_overflow now g in
    if retry == 0 then (h, 0) else (reject by_overflow RejectReason.overflow now h, retry)

-- The overflow bucket guards a full failure table.
unfoldable pub check_failure_room : ℕ → AuthGuard → Answer
check_failure_room now g =
    if leb g.cfg.max_keys (length g.failures) then check_overflow now g else (g, 0)

unfoldable pub take_ip : String → ℕ → TokenBucket → AuthGuard → Answer
take_ip ip now bucket g =
    let (b, retry) = take bucket g.cfg.ip_request_rate (g.cfg.ip_request_burst * token) now in
    let h = record g { ip_tokens = put string_discrete ip b g.ip_tokens } in
    if retry == 0 then (h, 0) else (reject by_ip RejectReason.ip_request now h, retry)

-- A known source pays from its bucket, a new one gets a bucket if there is room, and the overflow
-- bucket pays for it if there is none.
unfoldable pub check_ip : String → ℕ → AuthGuard → Answer
unfolding take_ip
check_ip ip now g = elim (find string_discrete ip g.ip_tokens) [
  | some bucket ↦ take_ip ip now bucket g
  | none ↦
      if leb g.cfg.max_keys (length g.ip_tokens)
      then check_overflow now g
      else take_ip ip now (record { tokens = g.cfg.ip_request_burst * token; last = now }) g
]

-- `retryForKeyLocked` and the refusal after it.
unfoldable pub check_key : Counted → RejectReason → FailureKey → ℕ → ℕ → ℕ → ℕ → AuthGuard → Answer
check_key kind reason key limit window cooldown now g =
    let (fs, retry) = retry_for_key key limit window cooldown now g.inflight g.failures in
    let h = record g { failures = fs } in
    if retry == 0 then (h, 0) else (reject kind reason now h, retry)

unfoldable pub check_ip_failures : String → ℕ → AuthGuard → Answer
unfolding check_key
check_ip_failures ip now =
    check_key by_ip RejectReason.ip_failure (ip_key ip) auth_ip_failure_limit auth_ip_failure_window
      0 now

unfoldable pub admit_checks : String → ℕ → AuthGuard → Answer
admit_checks ip now g =
    check_global now (gc now g)
    >=> check_failure_room now
    >=> check_ip ip now
    >=> check_ip_failures ip now

-- `AdmitRequest`: the guard, the ticket if the request is admitted, and the wait if it is not.
unfoldable pub admit_request : String → ℕ → AuthGuard → AuthGuard × Option AuthTicket × ℕ
unfolding admit_checks
admit_request ip now g =
    let (h, retry) = admit_checks ip now g in
    if retry == 0
    then (h, some (record { ip = ip; account = none; reserved = false; finished = false }), 0)
    else (h, none, retry)

unfoldable pub reserve_keys : String → String → AuthGuard → AuthGuard
reserve_keys ip digest g = record g {
  inflight =
      reserve (combo_key ip digest) (reserve (account_key digest) (reserve (ip_key ip) g.inflight));
}

unfoldable pub check_account : String → String → ℕ → AuthGuard → Answer
unfolding check_key
check_account ip digest now g =
    check_key by_account RejectReason.account (account_key digest) auth_account_failure_limit
      auth_account_failure_window (account_cooldown_max g.cfg) now g
    >=> check_key by_combo RejectReason.combo (combo_key ip digest) auth_combo_failure_limit
        auth_combo_failure_window 0 now

-- The reservation of an account that is named; a ticket reserves once.
unfoldable pub attach_named : String → ℕ → AuthTicket → AuthGuard → AuthGuard × AuthTicket × ℕ
attach_named digest now t g =
    let (h, retry) = check_account t.ip digest now g in
    if t.finished || t.reserved
    then (g, t, 0)
    else if retry == 0
    then (reserve_keys t.ip digest h, record t { account = some digest; reserved = true }, 0)
    else (h, t, retry)

-- `AttachAccount`: the guard, the ticket, and 0 or the wait. An empty name reserves nothing.
unfoldable pub attach_account :
    AuthText → String → ℕ → AuthTicket → AuthGuard → AuthGuard × AuthTicket × ℕ
unfolding attach_named
attach_account text username now t g =
    let name = text.trim_space username in
    ite (string_discrete name "") (g, t, 0) (attach_named (auth_account_digest text name) now t g)

unfoldable pub release_ticket : AuthTicket → AuthGuard → AuthGuard
release_ticket t g =
    if t.reserved
    then release (auth_combo_key t.ip t.account)
        (release (auth_account_key t.account) (release (ip_key t.ip) g))
    else g

unfoldable pub count_password : AuthGuard → AuthGuard
count_password g = record g {
  counters = record (g.counters) { invalid_passwords = g.counters.invalid_passwords + 1 };
}

-- One more failure of the source.
unfoldable pub count_ip : String → ℕ → AuthGuard → AuthGuard
unfolding count_password
count_ip ip now g =
    record_failure (ip_key ip) auth_ip_failure_limit auth_ip_failure_window 0 now (count_password g)

-- One more failure of the account, and of the account from this source.
unfoldable pub count_account : String → Option String → ℕ → AuthGuard → AuthGuard
count_account ip none now g = g
count_account ip (some digest) now g =
    record_failure (combo_key ip digest) auth_combo_failure_limit auth_combo_failure_window 0 now (
      record_failure (account_key digest) auth_account_failure_limit auth_account_failure_window
        (account_cooldown_max g.cfg) now g)

unfoldable pub count_invalid : AuthTicket → ℕ → AuthGuard → AuthGuard
unfolding count_ip count_account
count_invalid t now g = count_account t.ip t.account now (count_ip t.ip now g)

unfoldable pub settle : AuthOutcome → AuthTicket → ℕ → AuthGuard → AuthGuard
unfolding count_invalid
settle interrupted t now g = g
settle invalid_password t now g = count_invalid t now g
settle password_verified t now g = record g {
  counters = record (g.counters) { verified = g.counters.verified + 1 };
}
settle storage_failure t now g = record g {
  counters = record (g.counters) { storage_failures = g.counters.storage_failures + 1 };
}

-- `Finish`: the guard and the ticket.
unfoldable pub finish : AuthOutcome → ℕ → AuthTicket → AuthGuard → AuthGuard × AuthTicket
unfolding release_ticket settle
finish outcome now t g =
    if t.finished
    then (g, t)
    else (settle outcome t now (release_ticket t g), record t { finished = true; reserved = false })
