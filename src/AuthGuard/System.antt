-- ===== src/AuthGuard/System.antt =====
-- The guard of internal/server/auth_guard.go with the tickets that its requests hold. Requests
-- run in parallel, and the guard's mutex makes a sequence of their calls: a list of events.
use emby_go.Base.{
  ℕ, List, [], ◌∷◌, Option, none, some, String, get_elem?, set, if◌then◌else◌, leb, ◌*◌,
}
use emby_go.AuthGuard.Types.{
  AuthGuard, AuthGuardConfig, AuthText, AuthTicket, AuthOutcome, token, per_second,
  default_auth_guard_max_keys,
}
use emby_go.AuthGuard.Admin.{on_credential_commit_success, unlock}
use emby_go.AuthGuard.Tickets.{admit_request, attach_account, finish}

pub record System : Type 0 where
  pub guard : AuthGuard
  pub tickets : List AuthTicket

-- The calls that reach the guard; a ticket is named by its place in the list.
pub data Event : Type 0 where
  admits : String → ℕ → Event
  attaches : ℕ → String → ℕ → Event
  finishes : ℕ → AuthOutcome → ℕ → Event
  commits : String → Event
  unlocks : String → String → Event

-- `newAuthGuard` on a configuration whose defaults are filled in.
unfoldable pub new_auth_guard : AuthGuardConfig → ℕ → AuthGuard
new_auth_guard cfg clock = record {
  cfg = cfg;
  global = record { tokens = cfg.global_request_burst * token; last = clock };
  overflow = record { tokens = 10 * token; last = clock };
  ip_tokens = [];
  failures = [];
  inflight = [];
  last_gc = clock;
  counters = record {
    rejected_ip = 0;
    rejected_global = 0;
    rejected_account = 0;
    rejected_combo = 0;
    rejected_slot = 0;
    rejected_overflow = 0;
    invalid_passwords = 0;
    verified = 0;
    storage_failures = 0;
    rate_limited_logged = 0;
  };
  last_reject_log = [];
}

-- 0 stands for a value that is not configured.
unfoldable pub or_default : ℕ → ℕ → ℕ
or_default n d = if leb n 0 then d else n

unfoldable pub normalize : AuthGuardConfig → AuthGuardConfig
unfolding or_default
normalize c = record c {
  bcrypt_concurrency = or_default c.bcrypt_concurrency 4;
  max_keys = or_default c.max_keys default_auth_guard_max_keys;
  ip_request_rate = or_default c.ip_request_rate per_second;
  ip_request_burst = or_default c.ip_request_burst 10;
  global_request_rate = or_default c.global_request_rate (20 * per_second);
  global_request_burst = or_default c.global_request_burst 40;
  credential_body_bytes = or_default c.credential_body_bytes 8192;
}

unfoldable pub add_ticket : Option AuthTicket → List AuthTicket → List AuthTicket
add_ticket none ts = ts
add_ticket (some t) ts = t ∷ ts

module _ (text : AuthText) (parse_ip : String → Option String) where
  -- A call on a ticket that is not there changes nothing (`t == nil`).
  unfoldable pub attach_at : ℕ → String → ℕ → System → System
  attach_at i username now s = elim (get_elem? s.tickets i) [
    | none ↦ s
    | some t ↦
        let (g, t', _) = attach_account text username now t s.guard in
        record s { guard = g; tickets = set s.tickets i t' }
  ]

  unfoldable pub finish_at : ℕ → AuthOutcome → ℕ → System → System
  finish_at i outcome now s = elim (get_elem? s.tickets i) [
    | none ↦ s
    | some t ↦
        let (g, t') = finish outcome now t s.guard in
        record s { guard = g; tickets = set s.tickets i t' }
  ]

  unfoldable pub step : Event → System → System
  unfolding attach_at finish_at add_ticket
  step (admits ip now) s =
      let (g, t, _) = admit_request ip now s.guard in
      record s { guard = g; tickets = add_ticket t s.tickets }
  step (attaches i username now) s = attach_at i username now s
  step (finishes i outcome now) s = finish_at i outcome now s
  step (commits username) s = record s {
    guard = on_credential_commit_success text username s.guard;
  }
  step (unlocks target value) s = record s { guard = (unlock text parse_ip target value s.guard).0 }

  unfoldable pub run : List Event → System → System
  run [] s = s
  run (e ∷ es) s = run es (step e s)

unfoldable pub start : AuthGuardConfig → ℕ → System
unfolding new_auth_guard normalize
start cfg clock = record { guard = new_auth_guard (normalize cfg) clock; tickets = [] }
