-- ===== src/Playback/Stops.antt =====
-- A stop in internal/store/playback_sessions.go is final until the session is started again.
use emby_go.Base.{
  ℕ, ◌≡◌, refl, ap, sym, ◌∙◌, true, false, Option, none, some, String, ◌==◌, arith, Option-cases,
  Bool-cases, inl, inr, find, find-put,
}
use emby_go.Playback.Record.{
  SessionKey, Session, PlaybackEvent, progress, stopped, Tables, PlaybackResult, Result, ok, err,
  session_movie_conflict, accept_stop, apply_kind, repeat_stop, open_session, close_session,
  stop_data, record_playback_event, key_of, session_key_discrete, user_movie_discrete, data_key,
}
use emby_go.Playback.Counting.{session_at}

module _ (item_key : ℕ → String) where
  accept_stop-repeats :
      (key : SessionKey) (s : Session) (ev : PlaybackEvent) (t u : Tables) (r : PlaybackResult)
      → accept_stop key s ev t ≡ ok (u, r)
      → (session_at key u ≡ some s)
        × (repeat_stop key ev u
            ≡ ok (u, record { play_count = r.play_count; counted = false; accepted = false }))
  unfolding accept_stop repeat_stop
  accept_stop-repeats key s ev t u r h =
      let d = stop_data ev (find user_movie_discrete (data_key key ev) t.userdata) in
      (
        ground (arith, find-put session_key_discrete key key s t.sessions),
        ground
            (arith, find-put user_movie_discrete (data_key key ev) (data_key key ev) d t.userdata),
      )

  repeat_stop_again :
      (key : SessionKey) (ev : PlaybackEvent) (t u : Tables) (r : PlaybackResult)
      → repeat_stop key ev t ≡ ok (u, r)
      → (u ≡ t) × (r ≡ record { play_count = r.play_count; counted = false; accepted = false })
  unfolding repeat_stop
  repeat_stop_again key ev t u r h = ground arith

  -- What is stored after a stop that succeeds: a stopped session of the same movie, and a count that
  -- a repeated stop answers with.
  abbrev Stopped : SessionKey → PlaybackEvent → Result (Tables × PlaybackResult) → Type 0
  Stopped key ev (err e) = Unit {0}
  Stopped key ev (ok (u, r)) =
      ((s : Session) × (session_at key u ≡ some s)
        × (s.stopped ≡ true)
        × (s.movie_id ≡ ev.movie_id))
      × (repeat_stop key ev u
          ≡ ok (u, record { play_count = r.play_count; counted = false; accepted = false }))

  apply_stop-Stopped :
      (key : SessionKey) (old : Option Session) (ev : PlaybackEvent) (t u : Tables)
      (r : PlaybackResult)
      → ((s : Session) → old ≡ some s → (session_at key t ≡ some s) × (s.movie_id ≡ ev.movie_id))
      → apply_kind stopped key old ev t ≡ ok (u, r)
      → Stopped key ev (ok (u, r))
  unfolding apply_kind
  apply_stop-Stopped key none ev t u r bound h =
      let (at, again) = accept_stop-repeats key (open_session ev true) ev t u r h in
      ((open_session ev true, at, refl, refl), again)
  apply_stop-Stopped key (some s) ev t u r bound h = elim (Bool-cases s.stopped) [
    | inl e ↦
        let k : repeat_stop key ev t ≡ ok (u, r) = rw (e, apply_kind) at h in
        let (same, answer) = repeat_stop_again key ev t u r k in
        let (at, movie) = bound s refl in
        ((s, ap (session_at key) same ∙ at, e, movie), ground (arith, k, same, answer))
    | inr e ↦
        let k : accept_stop key (close_session ev s) ev t ≡ ok (u, r) = rw (e, apply_kind) at h in
        let (at, again) = accept_stop-repeats key (close_session ev s) ev t u r k in
        ((close_session ev s, at, refl, (bound s refl).1), again)
  ]

  record_ok :
      (ev : PlaybackEvent) (t u : Tables) (r : PlaybackResult)
      → record_playback_event item_key ev t ≡ ok (u, r)
      → (old : Option Session) × (apply_kind ev.kind (key_of item_key ev) old ev t ≡ ok (u, r))
        × ((s : Session)
            → old ≡ some s
            → (session_at (key_of item_key ev) t ≡ some s) × (s.movie_id ≡ ev.movie_id))
  unfolding record_playback_event
  record_ok ev t u r h =
      let key = key_of item_key ev in
      elim (Option-cases (find session_key_discrete key t.sessions)) [
        | inl e ↦ (none, rw (e, record_playback_event) at h, λ s k. absurd (ground (arith, k)))
        | inr (s, e) ↦ elim (Bool-cases (s.movie_id == ev.movie_id)) [
          | inl m ↦ (some s, rw (e, m, record_playback_event) at h, λ s' k. ground (arith, m, e, k))
          | inr m ↦
              let k : err session_movie_conflict ≡ ok (u, r) =
                rw (e, m, record_playback_event) at h in
              absurd (cc k)
        ]
      ]

  -- A report on a session of its own movie goes on to the switch on its kind.
  record_bound :
      (ev : PlaybackEvent) (t : Tables) (key : SessionKey) (s : Session)
      → key_of item_key ev ≡ key
      → session_at key t ≡ some s
      → s.movie_id ≡ ev.movie_id
      → record_playback_event item_key ev t ≡ apply_kind ev.kind key (some s) ev t
  unfolding record_playback_event
  record_bound ev t key s k at same =
      let e : find session_key_discrete (key_of item_key ev) t.sessions ≡ some s =
        ap (λ j. session_at j t) k ∙ at in
      let m : (s.movie_id == ev.movie_id) ≡ true = ground arith in
      rw (e, m, record_playback_event) (ap (λ j. apply_kind ev.kind j (some s) ev t) k)

  apply_stop_stopped :
      (ev : PlaybackEvent) (t : Tables) (key : SessionKey) (s : Session)
      → s.stopped ≡ true
      → apply_kind stopped key (some s) ev t ≡ repeat_stop key ev t
  unfolding apply_kind
  apply_stop_stopped ev t key s e = rw (e, apply_kind)

  apply_progress_stopped :
      (ev : PlaybackEvent) (t : Tables) (key : SessionKey) (s : Session)
      → s.stopped ≡ true
      → apply_kind progress key (some s) ev t
        ≡ ok (t, record { play_count = 0; counted = false; accepted = false })
  unfolding apply_kind
  apply_progress_stopped ev t key s e = rw (e, apply_kind)

  repeat_stop_movie :
      (key : SessionKey) (ev again : PlaybackEvent) (t : Tables)
      → again.movie_id ≡ ev.movie_id
      → repeat_stop key again t ≡ repeat_stop key ev t
  unfolding repeat_stop
  repeat_stop_movie key ev again t m = rw m

  -- After a stop that succeeded, in whatever state: the same session's stop again, from any device,
  -- at any time and position, answers with the same play count, counts nothing and changes no table;
  -- and a progress that comes late changes no table either.
  pub stop_once :
      (ev again late : PlaybackEvent) (t u : Tables) (r : PlaybackResult)
      → ev.kind ≡ stopped
      → again.kind ≡ stopped
      → late.kind ≡ progress
      → key_of item_key again ≡ key_of item_key ev
      → key_of item_key late ≡ key_of item_key ev
      → again.movie_id ≡ ev.movie_id
      → late.movie_id ≡ ev.movie_id
      → record_playback_event item_key ev t ≡ ok (u, r)
      → (record_playback_event item_key again u
          ≡ ok (u, record { play_count = r.play_count; counted = false; accepted = false }))
        × (record_playback_event item_key late u
            ≡ ok (u, record { play_count = 0; counted = false; accepted = false }))
  stop_once ev again late t u r is_ev is_again is_late ka kl ma ml h =
      let key = key_of item_key ev in
      let (old, applied, bound) = record_ok ev t u r h in
      let stopping : apply_kind stopped key old ev t ≡ ok (u, r) =
        ap (λ kind. apply_kind kind key old ev t) (sym is_ev) ∙ applied in
      let ((s, at, ended, movie), answer) = apply_stop-Stopped key old ev t u r bound stopping in
      (
        record_bound again u key s ka at (movie ∙ sym ma)
            ∙ ap (λ kind. apply_kind kind key (some s) again u) is_again
            ∙ apply_stop_stopped again u key s ended
            ∙ repeat_stop_movie key ev again u ma
            ∙ answer,
        record_bound late u key s kl at (movie ∙ sym ml)
            ∙ ap (λ kind. apply_kind kind key (some s) late u) is_late
            ∙ apply_progress_stopped late u key s ended,
      )
