-- ===== src/Playback/Counting.antt =====
-- How internal/store/playback_sessions.go counts plays.
use emby_go.Base.{
  ℕ, ◌+◌, ◌≡◌, refl, Bool, true, false, not, ◌&&◌, Option, none, some, String, ◌==◌, if◌then◌else◌,
  arith, Option-cases, Bool-cases, inl, inr, find, find-put, ite,
}
use emby_go.Playback.Record.{
  SessionKey, Session, UserMovie, PlaybackEvent, PlaybackKind, start, progress, stopped, other,
  Tables, PlaybackResult, Result, ok, err, accept_stop, accept_move, apply_kind, repeat_stop,
  open_session, close_session, reopen, advance, stop_data, move_data, record_playback_event, key_of,
  session_key_discrete, user_movie_discrete, data_key,
}

-- The plays counted for a user and a movie.
abbrev pub plays : UserMovie → Tables → ℕ
plays q t = elim (find user_movie_discrete q t.userdata) [ none ↦ 0 | some d ↦ d.play_count ]

abbrev pub session_at : SessionKey → Tables → Option Session
session_at k t = find session_key_discrete k t.sessions

-- What a report leaves and answers, by the session it meets. `Stopped` counts one play.
abbrev Counts :
    SessionKey
    → PlaybackEvent
    → Bool
    → Tables
    → Result (Tables × PlaybackResult)
    → UserMovie
    → Type 0
Counts key ev c t (err e) q = Unit {0}
Counts key ev c t (ok (u, r)) q =
    (r.counted ≡ c)
    × (plays q u ≡ plays q t + (if c then ite (user_movie_discrete (data_key key ev) q) 1 0 else 0))

accept_stop-Counts :
    (key : SessionKey) (s : Session) (ev : PlaybackEvent) (t : Tables) (q : UserMovie)
    → Counts key ev true t (accept_stop key s ev t) q
unfolding accept_stop
accept_stop-Counts key s ev t q =
    let old = find user_movie_discrete (data_key key ev) t.userdata in
    (
      refl,
      ground
          (arith, find-put user_movie_discrete (data_key key ev) q (stop_data ev old) t.userdata),
    )

accept_move-Counts :
    (key : SessionKey) (s : Session) (ev : PlaybackEvent) (t : Tables) (q : UserMovie)
    → Counts key ev false t (accept_move key s ev t) q
unfolding accept_move
accept_move-Counts key s ev t q =
    let old = find user_movie_discrete (data_key key ev) t.userdata in
    (
      refl,
      ground
          (arith, find-put user_movie_discrete (data_key key ev) q (move_data ev old) t.userdata),
    )

repeat_stop-Counts :
    (key : SessionKey) (ev : PlaybackEvent) (t : Tables) (q : UserMovie)
    → Counts key ev false t (repeat_stop key ev t) q
unfolding repeat_stop
repeat_stop-Counts key ev t q =
    elim (Option-cases (find user_movie_discrete (data_key key ev) t.userdata)) [
      | inl e ↦ rw (e, repeat_stop) tt
      | inr (d, e) ↦ rw (e, repeat_stop) (refl, omega arith)
    ]

-- A stop counts if the session is new or runs.
abbrev pub is_running : Option Session → Bool
is_running none = true
is_running (some s) = not s.stopped

abbrev pub is_stop : PlaybackKind → Bool
is_stop stopped = true
is_stop _ = false

apply_kind-Counts :
    (kind : PlaybackKind) (key : SessionKey) (old : Option Session) (ev : PlaybackEvent)
    (t : Tables) (q : UserMovie)
    → Counts key ev (is_stop kind && is_running old) t (apply_kind kind key old ev t) q
unfolding apply_kind
apply_kind-Counts stopped key none ev t q = accept_stop-Counts key (open_session ev true) ev t q
apply_kind-Counts stopped key (some s) ev t q = elim (Bool-cases s.stopped) [
  | inl e ↦ rw (e, apply_kind) (repeat_stop-Counts key ev t q)
  | inr e ↦ rw (e, apply_kind) (accept_stop-Counts key (close_session ev s) ev t q)
]
apply_kind-Counts start key none ev t q = accept_move-Counts key (open_session ev false) ev t q
apply_kind-Counts start key (some s) ev t q = accept_move-Counts key (reopen ev s) ev t q
apply_kind-Counts progress key none ev t q = accept_move-Counts key (open_session ev false) ev t q
apply_kind-Counts progress key (some s) ev t q = elim (Bool-cases s.stopped) [
  | inl e ↦ rw (e, apply_kind) (refl, omega arith)
  | inr e ↦ rw (e, apply_kind) (accept_move-Counts key (advance ev s) ev t q)
]
apply_kind-Counts (other k) key old ev t q = tt

module _ (item_key : ℕ → String) where
  record-Counts :
      (ev : PlaybackEvent) (t : Tables) (q : UserMovie)
      → Counts
          (key_of item_key ev)
          ev
          (is_stop ev.kind && is_running (session_at (key_of item_key ev) t))
          t
          (record_playback_event item_key ev t)
          q
  unfolding record_playback_event
  record-Counts ev t q =
      let key = key_of item_key ev in
      elim (Option-cases (find session_key_discrete key t.sessions)) [
        | inl e ↦ rw (e, record_playback_event) (apply_kind-Counts ev.kind key none ev t q)
        | inr (s, e) ↦ elim (Bool-cases (s.movie_id == ev.movie_id)) [
          | inl m ↦ rw (e, m, record_playback_event) (apply_kind-Counts ev.kind key (some s) ev t q)
          | inr m ↦ rw (e, m, record_playback_event) tt
        ]
      ]

  -- A report that succeeds adds one play to the user and movie that it names exactly if it is a stop
  -- and its session is new or has not been stopped; it says so in its answer, and it changes no other
  -- count.
  pub plays_exact :
      (ev : PlaybackEvent) (t u : Tables) (r : PlaybackResult) (q : UserMovie)
      → record_playback_event item_key ev t ≡ ok (u, r)
      → (r.counted ≡ (is_stop ev.kind && is_running (session_at (key_of item_key ev) t)))
        × (plays q u
            ≡ plays q t
              + (if r.counted
                  then ite (user_movie_discrete (data_key (key_of item_key ev) ev) q) 1 0
                  else 0))
  plays_exact ev t u r q h = let c = rw h at (record-Counts ev t q) in (c.0, rw c.0 c.1)
