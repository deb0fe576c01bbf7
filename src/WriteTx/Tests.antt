-- ===== src/WriteTx/Tests.antt =====
-- The lock of the writer and a busy database (internal/store/write_tx.go) with concrete callers.
use emby_go.Base.{
  ℕ, ◌≤◌, ◌≡◌, refl, Bool, true, false, List, [], ◌∷◌, some, arith, ◌==◌, leb, if◌then◌else◌,
}
use emby_go.WriteTx.Gate.{WriterGate}
use emby_go.WriteTx.Attempts.{Once, TxResult, max_attempts, attempts}
use emby_go.WriteTx.Turns.{Event, place, all_patient, count_releases, is_served, waits_its_turn}
use emby_go.WriteTx.Tried.{EndsWith, attempts_end}

abbrev nobody : ℕ → Bool
nobody id = false

abbrev only_five : ℕ → Bool
only_five id = id == 5

-- 1 has the lock; 5 and 7 wait for it, in this order.
abbrev two_wait : WriterGate
two_wait = record { holder = some 1; waiting = 5 ∷ 7 ∷ [] }

abbrev morning : List Event
morning =
    Event.enters 9 false nobody
    ∷ Event.releases nobody
    ∷ Event.tries 4
    ∷ Event.leaves 9
    ∷ Event.releases only_five
    ∷ []

waits_its_turn_example : is_served 7 morning two_wait ≡ true
unfolding place all_patient count_releases
waits_its_turn_example = waits_its_turn 7 1 1 morning two_wait refl refl refl (omega arith)

abbrev busy_twice : ℕ → Once ℕ
busy_twice i = if leb 2 i then Once.committed else Once.busy

attempts_end_example :
    let x : TxResult ℕ × ℕ × ℕ = attempts busy_twice nobody nobody max_attempts 0 in
    (x.1 ≤ 3) × (x.2 ≤ 70) × EndsWith busy_twice nobody nobody max_attempts 0 x.0 x.1
attempts_end_example = attempts_end busy_twice nobody nobody
