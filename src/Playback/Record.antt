-- ===== src/Playback/Record.antt =====
-- `RecordPlaybackEvent` of internal/store/playback_sessions.go over its three tables. A statement of
-- SQL that fails in the database is not modelled: it rolls the transaction back.
use emby_go.Base.{
  ℕ, suc, ◌+◌, ◌%◌, List, [], ◌∷◌, Bool, true, false, not, ◌||◌, Option, none, some, String,
  string_discrete, ite, leb, ◌==◌, if◌then◌else◌, get_elem?, Table, find, put, ℕ_discrete,
}

-- `playback_sessions`, by user and session.
pub record SessionKey : Type 0 where
  pub user_id : ℕ
  pub session_key : String

pub record Session : Type 0 where
  pub movie_id : ℕ
  pub device_id : String
  pub started_at : ℕ
  pub last_event_seq : ℕ
  pub position_ticks : ℕ
  pub stopped : Bool
  pub stopped_at : ℕ

-- `userdata`, by user and movie: the columns that a report writes.
pub record UserMovie : Type 0 where
  pub user_id : ℕ
  pub movie_id : ℕ

pub record UserData : Type 0 where
  pub position_ticks : ℕ
  pub play_count : ℕ
  pub last_played_at : ℕ
  pub last_stopped_ticks : Option ℕ

unfoldable pub session_key_discrete : Discrete SessionKey
session_key_discrete = hlevel (string_discrete, ℕ_discrete)

unfoldable pub user_movie_discrete : Discrete UserMovie
user_movie_discrete = hlevel ℕ_discrete

pub data PlaybackKind : Type 0 where
  start progress stopped : PlaybackKind
  other : String → PlaybackKind

-- A row of `playback_events`.
pub record EventRow : Type 0 where
  pub id : ℕ
  pub key : SessionKey
  pub seq : ℕ
  pub kind : PlaybackKind
  pub position_ticks : ℕ
  pub created_at : ℕ

-- The tables; the events stand newest first, and `last_id` is SQLite's AUTOINCREMENT counter.
pub record Tables : Type 0 where
  pub sessions : Table SessionKey Session
  pub userdata : Table UserMovie UserData
  pub events : List EventRow
  pub last_id : ℕ

pub record PlaybackEvent : Type 0 where
  pub session_key : String
  pub user_id : ℕ
  pub movie_id : ℕ
  pub device_id : String
  pub kind : PlaybackKind
  pub position_ticks : ℕ
  pub now : ℕ

pub record PlaybackResult : Type 0 where
  pub play_count : ℕ
  pub counted : Bool
  pub accepted : Bool

pub data PlaybackError : Type 0 where
  session_movie_conflict no_rows unknown_kind : PlaybackError

pub data Result {ℓ} (A : Type ℓ) : Type ℓ where
  ok : A → Result A
  err : PlaybackError → Result A

abbrev pub playback_events_retain : ℕ
playback_events_retain = 20000

abbrev pub playback_prune_every : ℕ
playback_prune_every = 64

-- `DELETE … WHERE id <= (SELECT id … ORDER BY id DESC LIMIT 1 OFFSET retain)`
unfoldable pub delete_up_to : ℕ → List EventRow → List EventRow
delete_up_to id [] = []
delete_up_to id (e ∷ l) = let rest = delete_up_to id l in if leb e.id id then rest else e ∷ rest

unfoldable pub delete_old : ℕ → List EventRow → List EventRow
unfolding delete_up_to
delete_old retain l = elim (get_elem? l retain) [ none ↦ l | some e ↦ delete_up_to e.id l ]

unfoldable pub maybe_prune : ℕ → List EventRow → List EventRow
maybe_prune id l =
    if leb id 0 || not (id % playback_prune_every == 0)
    then l
    else delete_old playback_events_retain l

abbrev pub row_of : SessionKey → ℕ → PlaybackEvent → ℕ → EventRow
row_of key seq ev id = record {
  id = id;
  key = key;
  seq = seq;
  kind = ev.kind;
  position_ticks = ev.position_ticks;
  created_at = ev.now;
}

-- The event's row, and the pruning after it.
unfoldable pub add_event : SessionKey → ℕ → PlaybackEvent → Tables → Tables
add_event key seq ev t =
    let id = suc t.last_id in
    record t { events = maybe_prune id (row_of key seq ev id ∷ t.events); last_id = id }

unfoldable pub stop_data : PlaybackEvent → Option UserData → UserData
stop_data ev none = record {
  position_ticks = ev.position_ticks;
  play_count = 1;
  last_played_at = ev.now;
  last_stopped_ticks = some ev.position_ticks;
}
stop_data ev (some d) = record {
  position_ticks = ev.position_ticks;
  play_count = d.play_count + 1;
  last_played_at = ev.now;
  last_stopped_ticks = some ev.position_ticks;
}

unfoldable pub move_data : PlaybackEvent → Option UserData → UserData
move_data ev none = record {
  position_ticks = ev.position_ticks;
  play_count = 0;
  last_played_at = ev.now;
  last_stopped_ticks = none;
}
move_data ev (some d) = record d { position_ticks = ev.position_ticks; last_played_at = ev.now }

abbrev pub data_key : SessionKey → PlaybackEvent → UserMovie
data_key key ev = record { user_id = key.user_id; movie_id = ev.movie_id }

-- The transaction after a session was written with its new sequence number.
unfoldable pub accept_stop :
    SessionKey → Session → PlaybackEvent → Tables → Result (Tables × PlaybackResult)
unfolding add_event stop_data
accept_stop key s ev t =
    let old = find user_movie_discrete (data_key key ev) t.userdata in
    let d = stop_data ev old in
    let u =
      add_event key s.last_event_seq ev
        (record t { sessions = put session_key_discrete key s t.sessions }) in
    ok (
      record u { userdata = put user_movie_discrete (data_key key ev) d t.userdata },
      record { play_count = d.play_count; counted = true; accepted = true },
    )

unfoldable pub accept_move :
    SessionKey → Session → PlaybackEvent → Tables → Result (Tables × PlaybackResult)
unfolding add_event move_data
accept_move key s ev t =
    let old = find user_movie_discrete (data_key key ev) t.userdata in
    let u =
      add_event key s.last_event_seq ev
        (record t { sessions = put session_key_discrete key s t.sessions }) in
    ok (
      record u {
        userdata = put user_movie_discrete (data_key key ev) (move_data ev old) t.userdata;
      },
      record { play_count = 0; counted = false; accepted = true },
    )

-- A session that a report opens.
unfoldable pub open_session : PlaybackEvent → Bool → Session
open_session ev ended = record {
  movie_id = ev.movie_id;
  device_id = ev.device_id;
  started_at = ev.now;
  last_event_seq = 1;
  position_ticks = ev.position_ticks;
  stopped = ended;
  stopped_at = if ended then ev.now else 0;
}

-- A session that goes on.
unfoldable pub advance : PlaybackEvent → Session → Session
advance ev s = record s {
  last_event_seq = s.last_event_seq + 1;
  position_ticks = ev.position_ticks;
  device_id = ev.device_id;
}

unfoldable pub close_session : PlaybackEvent → Session → Session
unfolding advance
close_session ev s = record (advance ev s) { stopped = true; stopped_at = ev.now }

unfoldable pub reopen : PlaybackEvent → Session → Session
unfolding advance
reopen ev s = record (advance ev s) { started_at = ev.now; stopped = false }

-- A repeated stop counts nothing, and answers with the count so far.
unfoldable pub repeat_stop : SessionKey → PlaybackEvent → Tables → Result (Tables × PlaybackResult)
repeat_stop key ev t = elim (find user_movie_discrete (data_key key ev) t.userdata) [
  | none ↦ err no_rows
  | some d ↦ ok (t, record { play_count = d.play_count; counted = false; accepted = false })
]

unfoldable pub apply_kind :
    PlaybackKind
    → SessionKey
    → Option Session
    → PlaybackEvent
    → Tables
    → Result (Tables × PlaybackResult)
unfolding accept_stop accept_move open_session advance close_session reopen repeat_stop
apply_kind stopped key none ev t = accept_stop key (open_session ev true) ev t
apply_kind stopped key (some s) ev t =
    if s.stopped then repeat_stop key ev t else accept_stop key (close_session ev s) ev t
apply_kind start key none ev t = accept_move key (open_session ev false) ev t
apply_kind start key (some s) ev t = accept_move key (reopen ev s) ev t
apply_kind progress key none ev t = accept_move key (open_session ev false) ev t
apply_kind progress key (some s) ev t =
    if s.stopped
    then ok (t, record { play_count = 0; counted = false; accepted = false })
    else accept_move key (advance ev s) ev t
apply_kind (other k) key old ev t = err unknown_kind

-- `fmt.Sprintf("item:%d", ev.MovieID)`
module _ (item_key : ℕ → String) where
  unfoldable pub key_of : PlaybackEvent → SessionKey
  key_of ev = record {
    user_id = if leb ev.user_id 0 then 1 else ev.user_id;
    session_key = ite (string_discrete ev.session_key "") (item_key ev.movie_id) ev.session_key;
  }

  unfoldable pub record_playback_event : PlaybackEvent → Tables → Result (Tables × PlaybackResult)
  unfolding apply_kind
  record_playback_event ev t =
      let key = key_of ev in
      elim (find session_key_discrete key t.sessions) [
        | none ↦ apply_kind ev.kind key none ev t
        | some s ↦
            if s.movie_id == ev.movie_id
            then apply_kind ev.kind key (some s) ev t
            else err session_movie_conflict
      ]

  -- A report that fails is rolled back.
  unfoldable pub report : PlaybackEvent → Tables → Tables
  report ev t = elim (record_playback_event ev t) [ ok (u, _) ↦ u | err _ ↦ t ]

  unfoldable pub run : List PlaybackEvent → Tables → Tables
  run [] t = t
  run (ev ∷ evs) t = run evs (report ev t)
