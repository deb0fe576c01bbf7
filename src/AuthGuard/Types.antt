-- ===== src/AuthGuard/Types.antt =====
-- The constants, the configuration and the state of `authGuard` (internal/server/auth_guard.go).
-- A time is a count of nanoseconds, with 0 for the zero `time.Time`; a duration is one too.
-- Tokens are counted in units of 10^-12 token and rates in thousandths of a token per second, so
-- that a duration times a rate is a count of tokens.
use emby_go.Base.{
  ℕ, ◌*◌, Bool, String, Option, none, some, Table, string_discrete, leb, if◌then◌else◌,
}

abbrev pub millisecond : ℕ
millisecond = 1_000_000

abbrev pub second : ℕ
second = 1_000_000_000

abbrev pub minute : ℕ
minute = 60_000_000_000

-- One token.
abbrev pub token : ℕ
token = 1_000_000_000_000

-- One token per second.
abbrev pub per_second : ℕ
per_second = 1000

abbrev pub default_auth_guard_max_keys : ℕ
default_auth_guard_max_keys = 4096

abbrev pub default_auth_cooldown_max : ℕ
default_auth_cooldown_max = 5 * minute

abbrev pub auth_guard_gc_period : ℕ
auth_guard_gc_period = 5 * minute

abbrev pub auth_guard_key_idle : ℕ
auth_guard_key_idle = 10 * minute

abbrev pub auth_ip_failure_limit : ℕ
auth_ip_failure_limit = 20

abbrev pub auth_ip_failure_window : ℕ
auth_ip_failure_window = 10 * minute

abbrev pub auth_account_failure_limit : ℕ
auth_account_failure_limit = 10

abbrev pub auth_account_failure_window : ℕ
auth_account_failure_window = 15 * minute

abbrev pub auth_combo_failure_limit : ℕ
auth_combo_failure_limit = 5

abbrev pub auth_combo_failure_window : ℕ
auth_combo_failure_window = 5 * minute

abbrev pub auth_reject_log_min_interval : ℕ
auth_reject_log_min_interval = 30 * second

-- The fields are what the configuration file says; 0 asks for the default.
pub record AuthGuardConfig : Type 0 where
  pub ip_request_rate : ℕ
  pub ip_request_burst : ℕ
  pub global_request_rate : ℕ
  pub global_request_burst : ℕ
  pub bcrypt_concurrency : ℕ
  pub credential_body_bytes : ℕ
  pub max_keys : ℕ
  pub account_cooldown_max_seconds : ℕ

unfoldable pub account_cooldown_max : AuthGuardConfig → ℕ
account_cooldown_max c =
    if leb c.account_cooldown_max_seconds 0
    then default_auth_cooldown_max
    else c.account_cooldown_max_seconds * second

pub data AuthOutcome : Type 0 where
  interrupted invalid_password password_verified storage_failure : AuthOutcome

pub record TokenBucket : Type 0 where
  pub tokens : ℕ
  pub last : ℕ

pub record AuthFailureEntry : Type 0 where
  pub failures : ℕ
  pub window_start : ℕ
  pub blocked_at : ℕ

-- The keys of the failure table. The source spells them "", "ip:" + ip, "acct:" + digest and
-- "combo:" + ip + "|acct:" + digest; a digest is 32 hexadecimal digits.
pub data FailureKey : Type 0 where
  empty_key : FailureKey
  ip_key : String → FailureKey
  account_key : String → FailureKey
  combo_key : String → String → FailureKey

unfoldable pub failure_key_discrete : Discrete FailureKey
failure_key_discrete = hlevel string_discrete

pub data RejectReason : Type 0 where
  global overflow ip_request ip_failure account combo : RejectReason

unfoldable pub reject_reason_discrete : Discrete RejectReason
reject_reason_discrete = hlevel

pub record AuthGuardCounters : Type 0 where
  pub rejected_ip : ℕ
  pub rejected_global : ℕ
  pub rejected_account : ℕ
  pub rejected_combo : ℕ
  pub rejected_slot : ℕ
  pub rejected_overflow : ℕ
  pub invalid_passwords : ℕ
  pub verified : ℕ
  pub storage_failures : ℕ
  pub rate_limited_logged : ℕ

pub record AuthGuard : Type 0 where
  pub cfg : AuthGuardConfig
  pub global : TokenBucket
  pub overflow : TokenBucket
  pub ip_tokens : Table String TokenBucket
  pub failures : Table FailureKey AuthFailureEntry
  pub inflight : Table FailureKey ℕ
  pub last_gc : ℕ
  pub counters : AuthGuardCounters
  pub last_reject_log : Table RejectReason ℕ

-- A request's reservation; `account` is none until an account is attached.
pub record AuthTicket : Type 0 where
  pub ip : String
  pub account : Option String
  pub reserved : Bool
  pub finished : Bool

-- What the guard takes from Go's libraries: trimming and lower-casing of text, and the
-- hexadecimal SHA-256 prefix.
pub record AuthText : Type 0 where
  pub trim_space : String → String
  pub to_lower : String → String
  pub sha256_hex : String → String

unfoldable pub auth_account_digest : AuthText → String → String
auth_account_digest text username = text.sha256_hex (text.to_lower (text.trim_space username))

unfoldable pub auth_combo_key : String → Option String → FailureKey
auth_combo_key ip none = empty_key
auth_combo_key ip (some digest) = combo_key ip digest

unfoldable pub auth_account_key : Option String → FailureKey
auth_account_key none = empty_key
auth_account_key (some digest) = account_key digest
