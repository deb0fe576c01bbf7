-- ===== src/LogRing/Tests.antt =====
-- The ring of internal/logging/ring.go at concrete entries.
use emby_go.Base.{◌-◌, ◌≡◌, refl, List, [], ◌∷◌, some, length, drop, min, arith}
use emby_go.LogRing.Ring.{LogEntry, ring_of, limit_of, snapshot, add}
use emby_go.LogRing.Window.{after, snapshot_last}

abbrev first_entry : LogEntry
first_entry = record { time = "1"; level = "INFO"; message = "started" }

abbrev second_entry : LogEntry
second_entry = record { time = "2"; level = "WARN"; message = "slow" }

abbrev third_entry : LogEntry
third_entry = record { time = "3"; level = "INFO"; message = "done" }

abbrev three_entries : List LogEntry
three_entries = first_entry ∷ second_entry ∷ third_entry ∷ []

-- A ring of two entries forgets the first of three.
wrapped : snapshot 0 (after three_entries (ring_of 2)) ≡ some (second_entry ∷ third_entry ∷ [])
unfolding snapshot add ring_of
wrapped = refl

snapshot_last_example :
    snapshot 1 (after three_entries (ring_of 2))
    ≡ some (drop (length three_entries - limit_of 1 (min 2 (length three_entries))) three_entries)
snapshot_last_example = snapshot_last 2 three_entries 1 (omega arith)
