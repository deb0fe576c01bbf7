-- ===== src/ScanTasks/Room.antt =====
-- The loop of registerScanTask (internal/server/scan_tasks.go) that makes room for a task.
use emby_go.Base.{
  ℕ, zero, suc, ◌<◌, ◌≡◌, inl, inr, true, List, [], ◌∷◌, some, Table, length, arith, Bool-cases,
  Option-cases,
}
use emby_go.ScanTasks.Registry.{
  AsyncScanTask, ScanTasks, is_evictable, first_evictable, evict, room, make_room,
  scan_task_capacity,
}

pub first_evictable-length :
    (tasks : Table ℕ AsyncScanTask) (l : List ℕ) (c : ℕ) (m : List ℕ)
    → first_evictable tasks l ≡ some (c, m)
    → length l ≡ suc (length m)
unfolding first_evictable
first_evictable-length tasks [] c m h = ground arith
first_evictable-length tasks (id ∷ l) c m h = elim (Bool-cases (is_evictable id tasks)) [
  | inl b ↦ ground (arith, b)
  | inr b ↦ elim (Option-cases (first_evictable tasks l)) [
    | inl e ↦ ground (arith, b, e)
    | inr ((d, k), e) ↦ ground (arith, b, e, first_evictable-length tasks l d k e)
  ]
]

pub first_evictable-ended :
    (tasks : Table ℕ AsyncScanTask) (l : List ℕ) (c : ℕ) (m : List ℕ)
    → first_evictable tasks l ≡ some (c, m)
    → is_evictable c tasks ≡ true
unfolding first_evictable
first_evictable-ended tasks [] c m h = ground arith
first_evictable-ended tasks (id ∷ l) c m h = elim (Bool-cases (is_evictable id tasks)) [
  | inl b ↦ ground (arith, b)
  | inr b ↦ elim (Option-cases (first_evictable tasks l)) [
    | inl e ↦ ground (arith, b, e)
    | inr ((d, k), e) ↦ ground (arith, b, e, first_evictable-ended tasks l d k e)
  ]
]

-- What holds of the table, holds after the loop, if it holds after each eviction.
pub make_room-room :
    (n : ℕ) (s r : ScanTasks) → make_room n s ≡ room r → length r.order < scan_task_capacity
unfolding make_room
make_room-room zero s r h = elim (Option-cases (first_evictable s.tasks s.order)) [
  | inl e ↦ ground (arith, e)
  | inr (p, e) ↦ ground (arith, e)
]
make_room-room (suc n) s r h = elim (Option-cases (first_evictable s.tasks s.order)) [
  | inl e ↦ ground (arith, e)
  | inr ((c, m), e) ↦ ground (arith, e, make_room-room n (evict c m s) r)
]
