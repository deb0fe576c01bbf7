-- ===== src/ScanTasks/Bounds.antt =====
-- The size of the table of scans (internal/server/scan_tasks.go).
use emby_go.Base.{
  ℕ, zero, suc, ◌≤◌, ◌<◌, ◌≡◌, refl, inl, inr, Bool, true, false, List, [], ◌∷◌, String, length,
  length-append, arith, Option-cases,
}
use emby_go.ScanTasks.Registry.{
  ScanTasks, Submission, RegisterError, Registered, Room, room, full, out_of_fuel,
  scan_task_capacity, first_evictable, evict, prune_idem, forget, make_room, insert, add,
  register_scan_task, replay_scan_task, update_task, set_scan_task_running, finish_scan_task,
}
use emby_go.ScanTasks.Requests.{Surroundings, submit_new, admin_submit_scan, end_run}
use emby_go.ScanTasks.Calls.{Call, perform, run}
use emby_go.ScanTasks.Room.{first_evictable-length, make_room-room}

abbrev pub Fits : ScanTasks → Type 0
Fits s = length s.order ≤ scan_task_capacity

make_room-full_shrinks :
    (n : ℕ) (s r : ScanTasks) → make_room n s ≡ full r → length r.order ≤ length s.order
unfolding make_room evict
make_room-full_shrinks zero s r h = elim (Option-cases (first_evictable s.tasks s.order)) [
  | inl e ↦ ground (arith, e)
  | inr (p, e) ↦ ground (arith, e)
]
make_room-full_shrinks (suc n) s r h = elim (Option-cases (first_evictable s.tasks s.order)) [
  | inl e ↦ ground (arith, e)
  | inr ((c, m), e) ↦ ground (
    arith,
    e,
    make_room-full_shrinks n (evict c m s) r,
    first_evictable-length s.tasks s.order c m e,
  )
]

insert-Fits :
    (stored : Bool) (now : ℕ) (b : Submission) (s : ScanTasks)
    → length s.order < scan_task_capacity
    → Fits (insert stored now b s).0
unfolding insert
insert-Fits false now b s h = omega arith
insert-Fits true now b s h = omega (arith, length-append s.order (b.id ∷ []))

add-Fits :
    (scanning stored : Bool) (now : ℕ) (b : Submission) (s : ScanTasks)
    → Fits s
    → Fits (add scanning stored now b s).0
unfolding add
add-Fits true stored now b s h = h
add-Fits false stored now b s h = helper (make_room (length s.order) s) refl
  where
    helper :
        (r : Room)
        → make_room (length s.order) s ≡ r
        → Fits
            (elim r as (λ _. ScanTasks × Registered) [
              | room t ↦ insert stored now b t
              | full t ↦ (t, Registered.refused RegisterError.capacity)
              | out_of_fuel ↦ (s, Registered.refused RegisterError.capacity)
            ]).0
    helper (room t) e = insert-Fits stored now b t (make_room-room (length s.order) s t e)
    helper (full t) e = omega (arith, make_room-full_shrinks (length s.order) s t e)
    helper out_of_fuel e = h

register-Fits :
    (shutting scanning stored : Bool) (now : ℕ) (b : Submission) (s : ScanTasks)
    → Fits s
    → Fits (register_scan_task shutting scanning stored now b s).0
unfolding register_scan_task prune_idem forget
register-Fits shutting scanning stored now b s h =
    ground
      (arith, add-Fits scanning stored now b (forget b.idem_key (prune_idem now s)) (ground arith))

replay-Fits :
    (key : String) (now : ℕ) (s : ScanTasks) → Fits s → Fits (replay_scan_task key now s).0
unfolding replay_scan_task prune_idem forget
replay-Fits key now s h = ground arith

submit_new-Fits :
    (w : Surroundings) (now : ℕ) (b : Submission) (s : ScanTasks)
    → Fits s
    → Fits (submit_new w now b s).0
unfolding submit_new
submit_new-Fits w now b s h = ground (arith, register-Fits w.shutting w.scanning w.stored now b s h)

perform-Fits :
    (byte_length : String → ℕ) (c : Call) (s : ScanTasks) → Fits s → Fits (perform byte_length c s)
unfolding perform admin_submit_scan set_scan_task_running end_run finish_scan_task update_task
perform-Fits byte_length (Call.submit w now b) s h =
    let replayed = replay-Fits b.idem_key now s h in
    ground (
      arith,
      submit_new-Fits w now b s h,
      replayed,
      submit_new-Fits w now b (replay_scan_task b.idem_key now s).0 replayed,
    )
perform-Fits byte_length (Call.ask key now) s h = replay-Fits key now s h
perform-Fits byte_length (Call.start id now stored) s h = ground arith
perform-Fits byte_length (Call.stop id now outcome stored) s h = ground arith

-- Whatever is submitted, run and asked for, the order of tasks never has more than 200.
pub run-Fits :
    (byte_length : String → ℕ) (l : List Call) (s : ScanTasks)
    → length s.order ≤ scan_task_capacity
    → length (run byte_length l s).order ≤ scan_task_capacity
unfolding run
run-Fits byte_length [] s h = h
run-Fits byte_length (c ∷ l) s h =
    run-Fits byte_length l (perform byte_length c s) (perform-Fits byte_length c s h)
