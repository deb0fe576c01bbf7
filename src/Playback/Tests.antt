-- ===== src/Playback/Tests.antt =====
-- Playback reports of internal/store/playback_sessions.go at concrete inputs.
use emby_go.Base.{
  ℕ, ◌+◌, ◌-◌, ◌≤◌, ◌≡◌, refl, [], ◌∷◌, ◌&&◌, true, false, String, string_discrete, ℕ_discrete,
  length, ite, if◌then◌else◌, find, put,
}
use emby_go.Playback.Record.{
  PlaybackEvent, start, progress, stopped, Tables, PlaybackResult, ok, record_playback_event, run,
  key_of, data_key, playback_events_retain, playback_prune_every, user_movie_discrete,
  session_key_discrete, report, maybe_prune,
}
use emby_go.Playback.Counting.{plays, session_at, is_stop, is_running, plays_exact}
use emby_go.Playback.Stops.{stop_once}
use emby_go.Playback.Events.{run_events_bounded}

abbrev empty : Tables
empty = record { sessions = []; userdata = []; events = []; last_id = 0 }

abbrev label : ℕ → String
label n = "item"

abbrev stop_event : PlaybackEvent
stop_event = record {
  session_key = "s1";
  user_id = 7;
  movie_id = 3;
  device_id = "tv";
  kind = stopped;
  position_ticks = 90;
  now = 1000;
}

abbrev start_event : PlaybackEvent
start_event = record stop_event { kind = start; position_ticks = 0; now = 900 }

abbrev late_event : PlaybackEvent
late_event = record stop_event { kind = progress; now = 1001 }

abbrev started : Tables
started = report label start_event empty

abbrev finished : Tables
finished = report label stop_event started

abbrev answer : PlaybackResult
answer = record { play_count = 1; counted = true; accepted = true }

stop_answer : record_playback_event label stop_event started ≡ ok (finished, answer)
unfolding report record_playback_event key_of maybe_prune string_discrete ℕ_discrete find put
    session_key_discrete user_movie_discrete
stop_answer = refl

plays_exact_example :
    let q = data_key (key_of label stop_event) stop_event in
    (answer.counted
      ≡ (is_stop stopped && is_running (session_at (key_of label stop_event) started)))
    × (plays q finished
        ≡ plays q started
          + (if answer.counted
              then ite (user_movie_discrete (data_key (key_of label stop_event) stop_event) q) 1 0
              else 0))
plays_exact_example =
    plays_exact label stop_event started finished answer
      (data_key (key_of label stop_event) stop_event) stop_answer

stop_once_example :
    (record_playback_event label stop_event finished
      ≡ ok (finished, record { play_count = answer.play_count; counted = false; accepted = false }))
    × (record_playback_event label late_event finished
        ≡ ok (finished, record { play_count = 0; counted = false; accepted = false }))
unfolding key_of
stop_once_example =
    stop_once label stop_event stop_event late_event started finished answer refl refl refl refl
      refl refl refl stop_answer

run_events_bounded_example :
    length (run label (start_event ∷ stop_event ∷ []) empty).events
    ≤ playback_events_retain + playback_prune_every - 1
run_events_bounded_example =
    run_events_bounded label (start_event ∷ stop_event ∷ []) empty refl refl
