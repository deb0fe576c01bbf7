-- ===== src/ScanTasks/Repeated.antt =====
-- A submission that is repeated under its key (internal/server/scan_tasks.go).
use emby_go.Base.{
  ℕ, ◌-◌, ◌≤◌, ◌≡◌, ◌≢◌, refl, sym, ◌∙◌, subst, inl, inr, Bool, true, false, List, some, String,
  find, find-put, length, leb, ite, ℕ_discrete, string_discrete, arith, Option-cases,
}
use emby_go.ScanTasks.Registry.{
  AsyncScanTask, ScanTasks, Submission, RegisterError, Registered, Room, room, full, out_of_fuel,
  is_finished, prune_idem, known, forget, make_room, task_of, insert, add, register_scan_task,
  replay_scan_task, scan_idem_ttl,
}
use emby_go.ScanTasks.Requests.{
  Answer, Surroundings, answer_of, submit_new, admin_submit_scan, max_idempotency_key,
}
use emby_go.ScanTasks.Calls.{Call, run, all_spare}
use emby_go.ScanTasks.Replay.{Held, known-Held, prune_idem-Held}
use emby_go.ScanTasks.Keeps.{run-Held}

insert-created :
    (stored : Bool) (now : ℕ) (b : Submission) (s t : ScanTasks) (id : ℕ) (task : AsyncScanTask)
    → b.idem_key ≢ ""
    → insert stored now b s ≡ (t, Registered.created id task)
    → Held b.idem_key b.id now b.digest t
unfolding insert task_of is_finished
insert-created false now b s t id task k h = ground arith
insert-created true now b s t id task k h = record {
  task = task_of b;
  entry = ground (
    arith,
    k,
    find-put string_discrete b.idem_key b.idem_key (record { task_id = b.id; at = now }) s.idem,
  );
  there = ground (arith, find-put ℕ_discrete b.id b.id (task_of b) s.tasks);
  unfinished = refl;
  same = refl;
}

add-created :
    (scanning stored : Bool) (now : ℕ) (b : Submission) (s t : ScanTasks) (id : ℕ)
    (task : AsyncScanTask)
    → b.idem_key ≢ ""
    → add scanning stored now b s ≡ (t, Registered.created id task)
    → Held b.idem_key b.id now b.digest t
unfolding add
add-created true stored now b s t id task k h = ground arith
add-created false stored now b s t id task k h = helper (make_room (length s.order) s) h
  where
    helper :
        (r : Room)
        → elim r as (λ _. ScanTasks × Registered) [
          | room q ↦ insert stored now b q
          | full q ↦ (q, Registered.refused RegisterError.capacity)
          | out_of_fuel ↦ (s, Registered.refused RegisterError.capacity)
        ]
          ≡ (t, Registered.created id task)
        → Held b.idem_key b.id now b.digest t
    helper (room q) e = insert-created stored now b q t id task k e
    helper (full q) e = ground arith
    helper out_of_fuel e = ground arith

register-created :
    (shutting scanning stored : Bool) (now : ℕ) (b : Submission) (s t : ScanTasks) (id : ℕ)
    (task : AsyncScanTask)
    → b.idem_key ≢ ""
    → register_scan_task shutting scanning stored now b s ≡ (t, Registered.created id task)
    → Held b.idem_key b.id now b.digest t
unfolding register_scan_task
register-created shutting scanning stored now b s t id task k h =
    elim (Option-cases (known b.idem_key (prune_idem now s))) [
      | inl e ↦
          add-created scanning stored now b (forget b.idem_key (prune_idem now s)) t id task k
            (ground (arith, e))
      | inr (p, e) ↦ ground (arith, e)
    ]

submit_new-accepted :
    (w : Surroundings) (now : ℕ) (b : Submission) (s t : ScanTasks) (id : ℕ) (task : AsyncScanTask)
    → b.idem_key ≢ ""
    → submit_new w now b s ≡ (t, Answer.accepted id task)
    → Held b.idem_key b.id now b.digest t
unfolding submit_new answer_of
submit_new-accepted w now b s t id task k h =
    register-created w.shutting w.scanning w.stored now b s t id task k (ground (arith, h))

submit-accepted :
    (byte_length : String → ℕ) (w : Surroundings) (now : ℕ) (b : Submission) (s t : ScanTasks)
    (id : ℕ) (task : AsyncScanTask)
    → b.idem_key ≢ ""
    → admin_submit_scan byte_length w now b s ≡ (t, Answer.accepted id task)
    → Held b.idem_key b.id now b.digest t
unfolding admin_submit_scan
submit-accepted byte_length w now b s t id task k h =
    elim (Option-cases (replay_scan_task b.idem_key now s).1) [
      | inl e ↦
          submit_new-accepted w now b (replay_scan_task b.idem_key now s).0 t id task k
            (ground (arith, e, h, k))
      | inr (p, e) ↦ ground (arith, e, h, k)
    ]

-- The answer to a key that is held.
answered_again :
    (byte_length : String → ℕ) (w : Surroundings) (now at id : ℕ) (digest : String) (b : Submission)
    (s : ScanTasks)
    → b.idem_key ≢ ""
    → byte_length b.idem_key ≤ max_idempotency_key
    → leb (now - at) scan_idem_ttl ≡ true
    → (h : Held b.idem_key id at digest s)
    → (admin_submit_scan byte_length w now b s).1
      ≡ ite (string_discrete digest b.digest) (Answer.again id h.task) Answer.idempotency_conflict
unfolding admin_submit_scan replay_scan_task
answered_again byte_length w now at id digest b s k n l h =
    ground (arith, k, n, known-Held (prune_idem now s) k (prune_idem-Held now s l h), h.same)

submit-short :
    (byte_length : String → ℕ) (w : Surroundings) (now : ℕ) (b : Submission) (s t : ScanTasks)
    (id : ℕ) (task : AsyncScanTask)
    → b.idem_key ≢ ""
    → admin_submit_scan byte_length w now b s ≡ (t, Answer.accepted id task)
    → byte_length b.idem_key ≤ max_idempotency_key
unfolding admin_submit_scan
submit-short byte_length w now b s t id task k h = ground (arith, h, k)

-- A submission under a key that was accepted, then any calls within an hour that neither end its task
-- nor take its id, then another submission under the key within the hour: whatever the state of the
-- server, it is answered with the task, which is still there and has not ended, if it asks for the same
-- scan, and is a conflict if it does not.
pub submit-repeated :
    (byte_length : String → ℕ) (w v : Surroundings) (now later : ℕ) (b c : Submission)
    (s t : ScanTasks) (l : List Call) (id : ℕ) (task : AsyncScanTask)
    → b.idem_key ≢ ""
    → admin_submit_scan byte_length w now b s ≡ (t, Answer.accepted id task)
    → all_spare b.id now l ≡ true
    → later - now ≤ scan_idem_ttl
    → c.idem_key ≡ b.idem_key
    → (found : AsyncScanTask) × ((admin_submit_scan byte_length v later c (run byte_length l t)).1
        ≡ ite
            (string_discrete b.digest c.digest)
            (Answer.again b.id found)
            Answer.idempotency_conflict)
      × (find ℕ_discrete b.id (run byte_length l t).tasks ≡ some found)
      × (is_finished found.status ≡ false)
submit-repeated byte_length w v now later b c s t l id task k h p q e =
    let first : Held b.idem_key b.id now b.digest t =
      submit-accepted byte_length w now b s t id task k h in
    let last : Held c.idem_key b.id now b.digest (run byte_length l t) =
      subst (λ (x : String). Held x b.id now b.digest (run byte_length l t)) (sym e)
        (run-Held byte_length l t k p first) in
    let short : byte_length c.idem_key ≤ max_idempotency_key =
      subst (λ (x : String). byte_length x ≤ max_idempotency_key) (sym e)
        (submit-short byte_length w now b s t id task k h) in
    (
      last.task,
      answered_again byte_length v later now b.id b.digest c (run byte_length l t)
          (λ z. k (sym e ∙ z)) short (ground arith) last,
      last.there,
      last.unfinished,
    )
