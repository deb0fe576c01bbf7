-- ===== src/Playback/Events.antt =====
-- The event table of internal/store/playback_sessions.go stays bounded.
use emby_go.Base.{
  ℕ, zero, suc, ◌+◌, ◌-◌, ◌%◌, ◌≤◌, ◌<◌, ◌≡◌, refl, ap, List, [], ◌∷◌, Option, none, some, String,
  ◌==◌, length, get_elem?, take, arith, Option-cases, Bool-cases, inl, inr, find, length-take,
  ℕ_discrete, ◌≢◌,
}
use emby_go.Playback.Record.{
  EventRow, SessionKey, Session, PlaybackEvent, PlaybackKind, start, progress, stopped, other,
  Tables, PlaybackResult, row_of, Result, ok, err, playback_events_retain, playback_prune_every,
  delete_up_to, delete_old, maybe_prune, accept_stop, accept_move, apply_kind, repeat_stop,
  record_playback_event, report, run, key_of, session_key_discrete, user_movie_discrete, data_key,
}

-- Ids fall from the newest event to the oldest, below a bound.
abbrev pub Below : ℕ → List EventRow → Type 0
Below b [] = Unit {0}
Below b (e ∷ l) = (e.id < b) × Below e.id l

Below-mono : (b c : ℕ) (l : List EventRow) → b ≤ c → Below b l → Below c l
Below-mono b c [] h d = tt
Below-mono b c (e ∷ l) h d = (omega arith, d.1)

delete_up_to_all : (b id : ℕ) (l : List EventRow) → Below b l → b ≤ suc id → delete_up_to id l ≡ []
unfolding delete_up_to
delete_up_to_all b id [] d h = refl
delete_up_to_all b id (e ∷ l) d h = ground (arith, delete_up_to_all e.id id l d.1)

get_elem-Below :
    (n b : ℕ) (l : List EventRow) (e : EventRow) → Below b l → get_elem? l n ≡ some e → e.id < b
get_elem-Below n b [] e d h = ground arith
get_elem-Below zero b (x ∷ l) e d h = ground arith
get_elem-Below (suc n) b (x ∷ l) e d h = omega (arith, get_elem-Below n x.id l e d.1 h, d.0)

-- Deleting up to the event behind the newest `n` leaves these.
delete_up_to-take :
    (n b : ℕ) (l : List EventRow) (e : EventRow)
    → Below b l
    → get_elem? l n ≡ some e
    → delete_up_to e.id l ≡ take n l
unfolding delete_up_to
delete_up_to-take n b [] e d h = ground arith
delete_up_to-take zero b (x ∷ l) e d h = ground (arith, delete_up_to_all x.id e.id l d.1)
delete_up_to-take (suc n) b (x ∷ l) e d h =
    ground (arith, get_elem-Below n x.id l e d.1 h, delete_up_to-take n x.id l e d.1 h)

take_all : (n : ℕ) (l : List EventRow) → get_elem? l n ≡ none → take n l ≡ l
take_all zero [] h = refl
take_all zero (x ∷ l) h = ground arith
take_all (suc n) [] h = refl
take_all (suc n) (x ∷ l) h = ap (◌∷◌ x) (take_all n l h)

-- The pruning statement keeps exactly the newest `n` events.
pub delete_old-take : (n b : ℕ) (l : List EventRow) → Below b l → delete_old n l ≡ take n l
unfolding delete_old
delete_old-take n b l d = elim (Option-cases (get_elem? l n)) [
  | inl e ↦ ground (arith, e, take_all n l)
  | inr (x, e) ↦ ground (arith, e, delete_up_to-take n b l x d)
]

take-Below : (n b : ℕ) (l : List EventRow) → Below b l → Below b (take n l)
take-Below zero b l d = tt
take-Below (suc n) b [] d = tt
take-Below (suc n) b (x ∷ l) d = (d.0, take-Below n x.id l d.1)

length-delete_old-le : (n b : ℕ) (l : List EventRow) → Below b l → length (delete_old n l) ≤ n
length-delete_old-le n b l d = omega (arith, ap length (delete_old-take n b l d), length-take n l)

delete_old-Below : (n b : ℕ) (l : List EventRow) → Below b l → Below b (delete_old n l)
delete_old-Below n b l d = rw (delete_old-take n b l d) (take-Below n b l d)

maybe_prune_due :
    (id : ℕ) (l : List EventRow)
    → 0 < id
    → id % playback_prune_every ≡ 0
    → maybe_prune id l ≡ delete_old playback_events_retain l
unfolding maybe_prune
maybe_prune_due id l pos due = ground arith

maybe_prune_waits :
    (id : ℕ) (l : List EventRow) → id % playback_prune_every ≢ 0 → maybe_prune id l ≡ l
unfolding maybe_prune
maybe_prune_waits id l wait = ground arith

-- The events fit a bound that is met anew at each multiple of the pruning period.
record Fits (last : ℕ) (l : List EventRow) : Type 0 where
  ordered : Below (suc last) l
  fits : length l ≤ playback_events_retain + last % playback_prune_every

maybe_prune-Fits :
    (last : ℕ) (e : EventRow) (l : List EventRow)
    → e.id ≡ suc last
    → Fits last l
    → Fits (suc last) (maybe_prune (suc last) (e ∷ l))
maybe_prune-Fits last e l same f =
    let older : Below e.id l = Below-mono (suc last) e.id l (omega arith) f.ordered in
    let whole : Below (suc (suc last)) (e ∷ l) = (omega arith, older) in
    elim (ℕ_discrete (suc last % playback_prune_every) 0) [
      | yes due ↦ rw (maybe_prune_due (suc last) (e ∷ l) (omega arith) due) (record {
        ordered = delete_old-Below playback_events_retain (suc (suc last)) (e ∷ l) whole;
        fits =
            omega
              (arith, length-delete_old-le playback_events_retain (suc (suc last)) (e ∷ l) whole);
      })
      | no waits ↦
          rw (maybe_prune_waits (suc last) (e ∷ l) waits)
            (record { ordered = whole; fits = omega (arith, f.fits) })
    ]

-- What a report does to the events: nothing, or one event more.
data Grown (t u : Tables) : Type 0 where
  kept : u.events ≡ t.events → u.last_id ≡ t.last_id → Grown t u
  added :
      (e : EventRow)
      → e.id ≡ suc t.last_id
      → u.events ≡ maybe_prune (suc t.last_id) (e ∷ t.events)
      → u.last_id ≡ suc t.last_id
      → Grown t u

abbrev GrownBy : Tables → Result (Tables × PlaybackResult) → Type 0
GrownBy t (ok (u, r)) = Grown t u
GrownBy t (err e) = Unit {0}

accept_stop-GrownBy :
    (key : SessionKey) (s : Session) (ev : PlaybackEvent) (t : Tables)
    → GrownBy t (accept_stop key s ev t)
unfolding accept_stop
accept_stop-GrownBy key s ev t =
    added (row_of key s.last_event_seq ev (suc t.last_id)) refl refl refl

accept_move-GrownBy :
    (key : SessionKey) (s : Session) (ev : PlaybackEvent) (t : Tables)
    → GrownBy t (accept_move key s ev t)
unfolding accept_move
accept_move-GrownBy key s ev t =
    added (row_of key s.last_event_seq ev (suc t.last_id)) refl refl refl

repeat_stop-GrownBy :
    (key : SessionKey) (ev : PlaybackEvent) (t : Tables) → GrownBy t (repeat_stop key ev t)
unfolding repeat_stop
repeat_stop-GrownBy key ev t =
    elim (Option-cases (find user_movie_discrete (data_key key ev) t.userdata)) [
      | inl e ↦ rw (e, repeat_stop) tt
      | inr (d, e) ↦ rw (e, repeat_stop) (kept refl refl)
    ]

apply_kind-GrownBy :
    (kind : PlaybackKind) (key : SessionKey) (old : Option Session) (ev : PlaybackEvent)
    (t : Tables)
    → GrownBy t (apply_kind kind key old ev t)
unfolding apply_kind
apply_kind-GrownBy stopped key none ev t = accept_stop-GrownBy key _ ev t
apply_kind-GrownBy stopped key (some s) ev t = elim (Bool-cases s.stopped) [
  | inl e ↦ rw (e, apply_kind) (repeat_stop-GrownBy key ev t)
  | inr e ↦ rw (e, apply_kind) (accept_stop-GrownBy key _ ev t)
]
apply_kind-GrownBy start key none ev t = accept_move-GrownBy key _ ev t
apply_kind-GrownBy start key (some s) ev t = accept_move-GrownBy key _ ev t
apply_kind-GrownBy progress key none ev t = accept_move-GrownBy key _ ev t
apply_kind-GrownBy progress key (some s) ev t = elim (Bool-cases s.stopped) [
  | inl e ↦ rw (e, apply_kind) (kept refl refl)
  | inr e ↦ rw (e, apply_kind) (accept_move-GrownBy key _ ev t)
]
apply_kind-GrownBy (other k) key old ev t = tt

Grown-Fits : {t u : Tables} → Grown t u → Fits t.last_id t.events → Fits u.last_id u.events
Grown-Fits (kept e l) f = rw (e, l) f
Grown-Fits {t} (added e same es l) f = rw (es, l) (maybe_prune-Fits t.last_id e t.events same f)

module _ (item_key : ℕ → String) where
  record-GrownBy :
      (ev : PlaybackEvent) (t : Tables) → GrownBy t (record_playback_event item_key ev t)
  unfolding record_playback_event
  record-GrownBy ev t =
      elim (Option-cases (find session_key_discrete (key_of item_key ev) t.sessions)) [
        | inl e ↦
            rw (e, record_playback_event)
              (apply_kind-GrownBy ev.kind (key_of item_key ev) none ev t)
        | inr (s, e) ↦ elim (Bool-cases (s.movie_id == ev.movie_id)) [
          | inl m ↦
              rw (e, m, record_playback_event)
                (apply_kind-GrownBy ev.kind (key_of item_key ev) (some s) ev t)
          | inr m ↦ rw (e, m, record_playback_event) tt
        ]
      ]

  Grown-report :
      (r : Result (Tables × PlaybackResult)) (t : Tables)
      → GrownBy t r
      → Grown t (elim r [ ok (u, _) ↦ u | err _ ↦ t ])
  Grown-report (ok (u, _)) t g = g
  Grown-report (err e) t g = kept refl refl

  run-Fits :
      (evs : List PlaybackEvent) (t : Tables)
      → Fits t.last_id t.events
      → Fits (run item_key evs t).last_id (run item_key evs t).events
  unfolding run report
  run-Fits [] t f = f
  run-Fits (ev ∷ evs) t f =
      run-Fits evs (report item_key ev t)
        (Grown-Fits (Grown-report (record_playback_event item_key ev t) t (record-GrownBy ev t)) f)

  -- However long a server runs and whatever is reported to it, the event table never holds more
  -- than the 20000 events that are kept and the 63 that come between two prunings.
  pub run_events_bounded :
      (evs : List PlaybackEvent) (t : Tables)
      → t.events ≡ []
      → t.last_id ≡ 0
      → length (run item_key evs t).events ≤ playback_events_retain + playback_prune_every - 1
  run_events_bounded evs t none_yet zero_yet =
      let f =
        run-Fits evs t (rw (none_yet, zero_yet) (record { ordered = tt; fits = omega arith })) in
      omega (arith, f.fits)
