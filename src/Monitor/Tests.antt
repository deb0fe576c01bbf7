-- ===== src/Monitor/Tests.antt =====
-- The request monitor (internal/server/monitor.go) with concrete requests.
use emby_go.Base.{◌+◌, ◌*◌, ◌^◌, ◌≡◌, List, [], ◌∷◌, none}
use emby_go.Monitor.Ring.{Request, run, new_shards, merged}
use emby_go.Monitor.Merged.{ring, merged-ring}

-- Two requests of one minute in two shards, and one of the next minute.
abbrev three_requests : List Request
three_requests =
    record { at = 10 ^ 9; elapsed = 3 * 10 ^ 6; status = 200 }
    ∷ record { at = 10 ^ 9 + 1; elapsed = 90000 * 10 ^ 6; status = 503 }
    ∷ record { at = 61 * 10 ^ 9; elapsed = 10 ^ 6; status = 404 }
    ∷ []

merged-ring_example : merged 0 none (run three_requests new_shards) ≡ ring 0 three_requests none
merged-ring_example = merged-ring 0 three_requests
