-- ===== src/LogRing/Ring.antt =====
-- The ring of recent log entries (internal/logging/ring.go). The mutex makes each call one step.
use emby_go.Base.{
  ℕ, zero, suc, ◌+◌, ◌-◌, ◌%◌, Bool, true, false, ◌||◌, List, [], ◌∷◌, Option, none, some, String,
  ltb, ◌==◌, if◌then◌else◌, length, get_elem?, set, replicate,
}

abbrev pub ring_size : ℕ
ring_size = 500

pub record LogEntry : Type 0 where
  pub time : String
  pub level : String
  pub message : String

pub record Ring : Type 0 where
  pub entries : List LogEntry
  pub next : ℕ
  pub full : Bool

-- `NewRing`, for a capacity.
unfoldable pub ring_of : ℕ → Ring
ring_of capacity = record {
  entries = replicate capacity (record { time = ""; level = ""; message = "" });
  next = 0;
  full = false;
}

abbrev pub new_ring : Ring
new_ring = ring_of ring_size

unfoldable pub add : LogEntry → Ring → Ring
add e r =
    let next = (r.next + 1) % length r.entries in
    record {
      entries = set r.entries r.next e;
      next = next;
      full = if next == 0 then true else r.full;
    }

-- The number of entries that were written, up to the capacity.
unfoldable pub size : Ring → ℕ
size r = if r.full then length r.entries else r.next

-- The place of the entry that is `idx`-th by age.
unfoldable pub place : ℕ → Ring → ℕ
place idx r = if r.full then (r.next + idx) % length r.entries else idx

-- The entries from the `idx`-th on; `none` is the panic of an index out of range.
unfoldable pub collect : ℕ → ℕ → Ring → Option (List LogEntry)
unfolding place
collect idx zero r = some []
collect idx (suc count) r = elim (get_elem? r.entries (place idx r)) [
  | none ↦ none
  | some e ↦ elim (collect (suc idx) count r) [ none ↦ none | some rest ↦ some (e ∷ rest) ]
]

-- The limit that applies: 0, which stands for every limit that is not positive, asks for all.
unfoldable pub limit_of : ℕ → ℕ → ℕ
limit_of limit size = if limit == 0 || ltb size limit then size else limit

-- `Snapshot`
unfoldable pub snapshot : ℕ → Ring → Option (List LogEntry)
unfolding size limit_of collect
snapshot limit r = let n = limit_of limit (size r) in collect (size r - n) n r
