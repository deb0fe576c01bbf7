-- ===== src/AuthGuard/Invariant.antt =====
-- The invariant of the guard of internal/server/auth_guard.go and the tickets of its requests.
use emby_go.Base.{
  ℕ, suc, ◌+◌, ◌≤◌, ◌≡◌, refl, ap, ◌∙◌, List, [], ◌∷◌, arith, Bool, true, false, ◌||◌, Option, none,
  some, String, get_elem?, set, if◌then◌else◌, total, total-nil, total-cons, total-set, find, zero,
  subst,
}
use emby_go.AuthGuard.Types.{
  AuthGuard, AuthGuardConfig, AuthTicket, AuthOutcome, interrupted, invalid_password,
  password_verified, storage_failure, FailureKey, ip_key, account_key, combo_key, auth_account_key,
  auth_combo_key,
}
use emby_go.AuthGuard.Failures.{count_of, is_empty_key}
use emby_go.AuthGuard.Tickets.{
  release_ticket, count_invalid, count_ip, count_password, count_account, count_ip, count_account,
  settle,
}
use emby_go.AuthGuard.Load.{failures_at, inflight-record_failure}
use emby_go.AuthGuard.Quiet.{Quiet}
use emby_go.AuthGuard.System.{System, start}
use emby_go.AuthGuard.Budget.{
  Reserved, account_limit, combo_limit, weight, holds, IsSound, Budget, Quiet-Budget,
  count_of-release_ticket, release_ticket-failures,
}
use emby_go.AuthGuard.Growth.{count_invalid-Grows}

weight-none : {q : FailureKey} {limit : ℕ} (ip : String) → Reserved q limit → weight q ip none ≡ 0
unfolding auth_account_key auth_combo_key is_empty_key
weight-none ip (account_limit d) = ground arith
weight-none ip (combo_limit ip' d) = ground arith

-- The reservation of a ticket covers what its wrong password adds.
covered :
    {q : FailureKey} {limit : ℕ} (ip : String) (account : Option String) (reserved finished : Bool)
    → Reserved q limit
    → finished ≡ false
    → ((d : String) → account ≡ some d → (reserved || finished) ≡ true)
    → weight q ip account ≤ (if reserved then weight q ip account else 0)
covered ip none true finished r f s = omega arith
covered ip none false finished r f s = omega (arith, weight-none ip r)
covered ip (some d) true finished r f s = omega arith
covered ip (some d) false finished r f s = absurd (ground (arith, s d refl))

-- A finished request gives back what it reserved, and a wrong password takes its place.
pub settle-Budget :
    {q : FailureKey} {limit : ℕ} (outcome : AuthOutcome) (now : ℕ) (t : AuthTicket) (g : AuthGuard)
    → Reserved q limit
    → t.finished ≡ false
    → IsSound t
    → holds q t ≤ count_of q g.inflight
    → Budget g q limit
    → Budget (settle outcome t now (release_ticket t g)) q limit
unfolding settle count_invalid
settle-Budget {q} {limit} invalid_password now t g r f s held b = record {
  within =
      let a = count_invalid-Grows t.ip t.account now (release_ticket t g) r in
      rw a.same (
        omega (
          arith,
          a.more,
          ap (failures_at q) (release_ticket-failures t g),
          count_of-release_ticket q t g,
          covered t.ip t.account t.reserved t.finished r f s,
          b.within,
        ));
  blocked =
      (count_invalid-Grows t.ip t.account now (release_ticket t g) r).blocked
        (rw (release_ticket-failures t g) b.blocked);
}
settle-Budget {q} {limit} interrupted now t g r f s held b = record {
  within = ground (arith, release_ticket-failures t g, count_of-release_ticket q t g, b.within);
  blocked = rw (release_ticket-failures t g) b.blocked;
}
settle-Budget {q} {limit} password_verified now t g r f s held b = record {
  within = ground (arith, release_ticket-failures t g, count_of-release_ticket q t g, b.within);
  blocked = rw (release_ticket-failures t g) b.blocked;
}
settle-Budget {q} {limit} storage_failure now t g r f s held b = record {
  within = ground (arith, release_ticket-failures t g, count_of-release_ticket q t g, b.within);
  blocked = rw (release_ticket-failures t g) b.blocked;
}

inflight-count_account :
    (ip : String) (account : Option String) (now : ℕ) (g : AuthGuard)
    → (count_account ip account now g).inflight ≡ g.inflight
unfolding count_account
inflight-count_account ip none now g = refl
inflight-count_account ip (some d) now g =
    inflight-record_failure (combo_key ip d) _ _ _ _ _
    ∙ inflight-record_failure (account_key d) _ _ _ _ g

-- Settling leaves the reservations alone.
pub inflight-settle :
    (outcome : AuthOutcome) (t : AuthTicket) (now : ℕ) (g : AuthGuard)
    → (settle outcome t now g).inflight ≡ g.inflight
unfolding settle count_invalid count_ip
inflight-settle interrupted t now g = refl
inflight-settle password_verified t now g = refl
inflight-settle storage_failure t now g = refl
inflight-settle invalid_password t now g =
    inflight-count_account t.ip t.account now (count_ip t.ip now g)
    ∙ inflight-record_failure (ip_key t.ip) _ _ _ _ (count_password g)

-- The system's invariant: the reservations in flight are those of the tickets, and every
-- reserved key is within its budget.
pub record Inv (s : System) : Type 0 where
  pub counted :
      (q : FailureKey) (limit : ℕ)
      → Reserved q limit
      → count_of q s.guard.inflight ≡ total (holds q) s.tickets
  pub sound : (i : ℕ) (t : AuthTicket) → get_elem? s.tickets i ≡ some t → IsSound t
  pub budget : (q : FailureKey) (limit : ℕ) → Reserved q limit → Budget s.guard q limit

pub start-Inv : (cfg : AuthGuardConfig) (clock : ℕ) → Inv (start cfg clock)
unfolding start count_of find
start-Inv cfg clock = record {
  counted = λ q limit r. ground (arith, total-nil (holds q));
  sound = λ i t h. ground arith;
  budget = λ q limit r. record { within = omega arith; blocked = λ e h n. ground arith };
}

-- A step that leaves the tickets and only takes failures away.
pub Quiet-Inv :
    (s : System) (g : AuthGuard) → Quiet s.guard g → Inv s → Inv (record s { guard = g })
Quiet-Inv s g quiet v = record {
  counted = λ q limit r. ground (arith, quiet.same, v.counted q limit r);
  sound = v.sound;
  budget = λ q limit r. Quiet-Budget q limit quiet (v.budget q limit r);
}

-- A new ticket holds nothing.
pub new_ticket-Inv :
    (s : System) (t : AuthTicket)
    → t.reserved ≡ false
    → t.account ≡ none
    → Inv s
    → Inv (record s { tickets = t ∷ s.tickets })
new_ticket-Inv s t free blank v = record {
  counted = λ q limit r. ground (arith, total-cons (holds q) t s.tickets, v.counted q limit r);
  sound = sound';
  budget = v.budget;
}
  where
    sound' : (i : ℕ) (u : AuthTicket) → get_elem? (t ∷ s.tickets) i ≡ some u → IsSound u
    sound' zero u h d e = ground arith
    sound' (suc i) u h d e = v.sound i u h d e

-- A call on one ticket: what it does to that ticket's hold and to the guard.
pub set-Inv :
    (s : System) (i : ℕ) (t u : AuthTicket) (g : AuthGuard)
    → get_elem? s.tickets i ≡ some t
    → ((q : FailureKey) (limit : ℕ)
        → Reserved q limit
        → count_of q g.inflight + holds q t ≡ count_of q s.guard.inflight + holds q u)
    → IsSound u
    → ((q : FailureKey) (limit : ℕ) → Reserved q limit → Budget g q limit)
    → Inv s
    → Inv (record { guard = g; tickets = set s.tickets i u })
set-Inv s i t u g at moved sound' budget' v = record {
  counted = λ q limit r.
      omega (arith, total-set (holds q) s.tickets i t u at, moved q limit r, v.counted q limit r);
  sound = λ j w h. set_sound s.tickets i j w at h (v.sound j);
  budget = budget';
}
  where
    set_sound :
        (ts : List AuthTicket) (i j : ℕ) (w : AuthTicket)
        → get_elem? ts i ≡ some t
        → get_elem? (set ts i u) j ≡ some w
        → ((w : AuthTicket) → get_elem? ts j ≡ some w → IsSound w)
        → IsSound w
    set_sound [] i j w a h old = old w h
    set_sound (x ∷ ts) zero zero w a h old = let e : u ≡ w = ground arith in subst IsSound e sound'
    set_sound (x ∷ ts) zero (suc j) w a h old = old w h
    set_sound (x ∷ ts) (suc i) zero w a h old = old w h
    set_sound (x ∷ ts) (suc i) (suc j) w a h old = set_sound ts i j w a h old
