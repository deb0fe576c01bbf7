-- ===== src/ScanTasks/Registry.antt =====
-- The table of background scans (internal/server/scan_tasks.go) and the summaries that it writes
-- (internal/store/task_records.go). Times are nanoseconds, and their texts are arguments, as is whether
-- a write of a summary succeeds.
use emby_go.Base.{
  ℕ, zero, suc, ◌-◌, ◌*◌, ◌^◌, Bool, true, false, not, List, [], ◌∷◌, ◌++◌, Option, none, some,
  String, Table, find, put, erase, keep, length, ltb, ◌==◌, if◌then◌else◌, ite, ℕ_discrete,
  string_discrete,
}
use emby_go.TaskRecords.Rows.{RecordStatus, TaskRecord, Records, upsert, finish, set_started}

abbrev pub scan_task_capacity : ℕ
scan_task_capacity = 200

abbrev pub scan_idem_ttl : ℕ
scan_idem_ttl = 3600 * 10 ^ 9

pub record AsyncScanTask : Type 0 where
  pub kind : String
  pub status : RecordStatus
  pub library_id : ℕ
  pub mode : String
  pub allow_empty : Bool
  pub created_at : String
  pub started_at : String
  pub finished_at : String
  pub result : Option String
  pub error : Option String
  pub idem_key : String
  pub idem_digest : String
  pub root_marker : Option (String × String)

pub record ScanIdemEntry : Type 0 where
  pub task_id : ℕ
  pub at : ℕ

-- The part of `App`: `scanTasks`, `scanTaskOrder` and `scanTaskIdem`, with the summaries.
pub record ScanTasks : Type 0 where
  pub tasks : Table ℕ AsyncScanTask
  pub order : List ℕ
  pub idem : Table String ScanIdemEntry
  pub records : Records

-- The arguments of `registerScanTask`, with the text of the time.
pub record Submission : Type 0 where
  pub id : ℕ
  pub kind : String
  pub library_id : ℕ
  pub mode : String
  pub allow_empty : Bool
  pub digest : String
  pub idem_key : String
  pub marker : Option (String × String)
  pub created_at : String

pub data RegisterError : Type 0 where
  shutting_down idem_conflict scan_busy capacity not_stored : RegisterError

pub data Registered : Type 0 where
  created replayed : ℕ → AsyncScanTask → Registered
  refused : RegisterError → Registered

-- `finished`
unfoldable pub is_finished : RecordStatus → Bool
is_finished RecordStatus.queued = false
is_finished RecordStatus.running = false
is_finished RecordStatus.interrupted = false
is_finished (RecordStatus.ended s) =
    ite (string_discrete s "succeeded") true
      (ite (string_discrete s "failed") true (ite (string_discrete s "skipped") true false))

-- `pruneScanIdemLocked`
unfoldable pub prune_idem : ℕ → ScanTasks → ScanTasks
prune_idem now s = record s {
  idem =
      keep string_discrete
        (λ (k : String) (e : ScanIdemEntry). not (ltb scan_idem_ttl (now - e.at))) s.idem;
}

-- The task of a key.
unfoldable pub known : String → ScanTasks → Option (ℕ × AsyncScanTask)
known key s = ite (string_discrete key "") none (elim (find string_discrete key s.idem) [
  | none ↦ none
  | some e ↦ elim (find ℕ_discrete e.task_id s.tasks) [ none ↦ none | some t ↦ some (e.task_id, t) ]
])

-- A key whose task is gone is forgotten.
unfoldable pub forget : String → ScanTasks → ScanTasks
forget key s = ite (string_discrete key "") s (record s { idem = erase string_discrete key s.idem })

-- Whether the task of an id is there and has ended.
unfoldable pub is_evictable : ℕ → Table ℕ AsyncScanTask → Bool
unfolding is_finished
is_evictable id tasks = elim (find ℕ_discrete id tasks) [
  | none ↦ false
  | some t ↦ is_finished t.status
]

-- The first task in the order that has ended, and the others.
unfoldable pub first_evictable : Table ℕ AsyncScanTask → List ℕ → Option (ℕ × List ℕ)
unfolding is_evictable
first_evictable tasks [] = none
first_evictable tasks (id ∷ l) =
    let rest = first_evictable tasks l in
    if is_evictable id tasks
    then some (id, l)
    else elim rest [ none ↦ none | some (c, m) ↦ some (c, id ∷ m) ]

-- The eviction of a task and of its keys.
unfoldable pub evict : ℕ → List ℕ → ScanTasks → ScanTasks
evict id rest s = record s {
  tasks = erase ℕ_discrete id s.tasks;
  order = rest;
  idem = keep string_discrete (λ (k : String) (e : ScanIdemEntry). not (e.task_id == id)) s.idem;
}

pub data Room : Type 0 where
  room full : ScanTasks → Room
  out_of_fuel : Room

-- The loop that evicts until there is room, with as many rounds as `fuel`.
unfoldable pub make_room : ℕ → ScanTasks → Room
unfolding first_evictable evict
make_room zero s =
    if ltb (length s.order) scan_task_capacity
    then Room.room s
    else elim (first_evictable s.tasks s.order) [ none ↦ Room.full s | some p ↦ Room.out_of_fuel ]
make_room (suc n) s =
    if ltb (length s.order) scan_task_capacity
    then Room.room s
    else elim (first_evictable s.tasks s.order) [
      | none ↦ Room.full s
      | some (c, rest) ↦ make_room n (evict c rest s)
    ]

unfoldable pub task_of : Submission → AsyncScanTask
task_of b = record {
  kind = b.kind;
  status = RecordStatus.queued;
  library_id = b.library_id;
  mode = b.mode;
  allow_empty = b.allow_empty;
  created_at = b.created_at;
  started_at = "";
  finished_at = "";
  result = none;
  error = none;
  idem_key = b.idem_key;
  idem_digest = b.digest;
  root_marker = b.marker;
}

unfoldable pub summary_of : Submission → TaskRecord
summary_of b = record {
  kind = b.kind;
  status = RecordStatus.queued;
  library_id = b.library_id;
  mode = b.mode;
  allow_empty = b.allow_empty;
  created_at = b.created_at;
  started_at = "";
  finished_at = "";
  error = none;
  result_json = "";
}

-- The registration once there is room.
unfoldable pub insert : Bool → ℕ → Submission → ScanTasks → ScanTasks × Registered
unfolding task_of summary_of
insert stored now b s =
    if stored
    then (
      record {
        tasks = put ℕ_discrete b.id (task_of b) s.tasks;
        order = s.order ++ (b.id ∷ []);
        idem =
            ite (string_discrete b.idem_key "") s.idem
              (put string_discrete b.idem_key (record { task_id = b.id; at = now }) s.idem);
        records = upsert b.id (summary_of b) s.records;
      },
      Registered.created b.id (task_of b),
    )
    else (s, Registered.refused RegisterError.not_stored)

-- The rest of `registerScanTask` where the key is not known.
unfoldable pub add : Bool → Bool → ℕ → Submission → ScanTasks → ScanTasks × Registered
unfolding make_room insert
add scanning stored now b s =
    if scanning
    then (s, Registered.refused RegisterError.scan_busy)
    else elim (make_room (length s.order) s) [
      | room r ↦ insert stored now b r
      | full r ↦ (r, Registered.refused RegisterError.capacity)
      | out_of_fuel ↦ (s, Registered.refused RegisterError.capacity)
    ]

-- `registerScanTask`, after the shutdown began or not, while a scan runs or not.
unfoldable pub register_scan_task :
    Bool → Bool → Bool → ℕ → Submission → ScanTasks → ScanTasks × Registered
unfolding prune_idem known forget add
register_scan_task shutting scanning stored now b s =
    if shutting
    then (s, Registered.refused RegisterError.shutting_down)
    else elim (known b.idem_key (prune_idem now s)) [
      | none ↦ add scanning stored now b (forget b.idem_key (prune_idem now s))
      | some (id, t) ↦ (
        prune_idem now s,
        ite (string_discrete t.idem_digest b.digest) (Registered.replayed id t)
            (Registered.refused RegisterError.idem_conflict),
      )
    ]

-- `replayScanTask`
unfoldable pub replay_scan_task : String → ℕ → ScanTasks → ScanTasks × Option (ℕ × AsyncScanTask)
unfolding prune_idem known forget
replay_scan_task key now s =
    ite (string_discrete key "") (s, none)
      (elim (known key (prune_idem now s)) [
        | none ↦ (forget key (prune_idem now s), none)
        | some p ↦ (prune_idem now s, some p)
      ])

unfoldable pub update_task : ℕ → (AsyncScanTask → AsyncScanTask) → ScanTasks → ScanTasks
update_task id f s = elim (find ℕ_discrete id s.tasks) [
  | none ↦ s
  | some t ↦ record s { tasks = put ℕ_discrete id (f t) s.tasks }
]

-- `setScanTaskRunning`
unfoldable pub set_scan_task_running : ℕ → String → Bool → ScanTasks → ScanTasks
unfolding update_task
set_scan_task_running id now stored s =
    let changed =
      update_task id
        (λ (t : AsyncScanTask). record t { status = RecordStatus.running; started_at = now }) s in
    if stored then record changed { records = set_started id now changed.records } else changed

-- The task after `finishScanTask`: an error is written only if there is one.
unfoldable pub finished_task :
    RecordStatus → String → Option String → Option String → AsyncScanTask → AsyncScanTask
finished_task status now result error t = record t {
  status = status;
  finished_at = now;
  result = result;
  error = elim error [ none ↦ t.error | some e ↦ some e ];
}

-- `finishScanTask`; a result stands for its JSON text.
unfoldable pub finish_scan_task :
    ℕ → RecordStatus → String → Option String → Option String → Bool → ScanTasks → ScanTasks
unfolding update_task finished_task
finish_scan_task id status now result error stored s =
    let changed = update_task id (finished_task status now result error) s in
    let message : Option String = elim (find ℕ_discrete id changed.tasks) [
      | none ↦ none
      | some t ↦ t.error
    ] in
    let raw : String = elim result [ none ↦ "" | some r ↦ r ] in
    if stored
    then record changed { records = finish id status now message raw changed.records }
    else changed
