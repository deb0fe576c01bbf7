-- ===== src/ScanTasks/Replay.antt =====
-- Repeated requests (internal/server/scan_tasks.go): as long as a task has not ended and its key is not
-- an hour old, the key stands for the task, whatever else is called.
use emby_go.Base.{
  ℕ, subst, zero, suc, ◌-◌, ◌≡◌, ◌≢◌, ◌⊎◌, refl, inl, inr, Bool, true, false, not, List, Option,
  none, some, String, find, length, ltb, leb, ◌==◌, ite, ℕ_discrete, string_discrete, arith,
  Bool-cases, Option-cases, find-erase, find-put, find-keep,
}
use emby_go.ScanTasks.Registry.{
  AsyncScanTask, ScanIdemEntry, ScanTasks, Submission, RegisterError, Registered, Room, room, full,
  out_of_fuel, is_finished, prune_idem, known, forget, is_evictable, first_evictable, evict,
  make_room, task_of, insert, add, register_scan_task, scan_idem_ttl, scan_task_capacity,
}
use emby_go.ScanTasks.Room.{first_evictable-ended}

-- The key stands for a task that has not ended, since `at`.
pub record Held (key : String) (id at : ℕ) (digest : String) (s : ScanTasks) : Type 0 where
  pub task : AsyncScanTask
  pub entry : find string_discrete key s.idem ≡ some (record { task_id = id; at = at })
  pub there : find ℕ_discrete id s.tasks ≡ some task
  pub unfinished : is_finished task.status ≡ false
  pub same : task.idem_digest ≡ digest

module _ {key : String} {id at : ℕ} {digest : String} where
  pub known-Held :
      (s : ScanTasks) → (key ≢ "") → (h : Held key id at digest s) → known key s ≡ some (id, h.task)
  unfolding known
  known-Held s k h = ground (arith, h.entry, h.there, k)

  pub prune_idem-Held :
      (now : ℕ) (s : ScanTasks)
      → leb (now - at) scan_idem_ttl ≡ true
      → Held key id at digest s
      → Held key id at digest (prune_idem now s)
  unfolding prune_idem
  prune_idem-Held now s l h = record {
    task = h.task;
    entry = ground (
      arith,
      h.entry,
      find-keep string_discrete
          (λ (k : String) (e : ScanIdemEntry). not (ltb scan_idem_ttl (now - e.at))) key s.idem,
    );
    there = h.there;
    unfinished = h.unfinished;
    same = h.same;
  }

  pub forget-Held :
      (other : String) (s : ScanTasks)
      → known other s ≡ none
      → Held key id at digest s
      → Held key id at digest (forget other s)
  unfolding forget known
  forget-Held other s n h = record {
    task = h.task;
    entry = ground (arith, h.entry, h.there, n, find-erase string_discrete other key s.idem);
    there = ground (arith, h.there);
    unfinished = h.unfinished;
    same = h.same;
  }

  evict-Held :
      (c : ℕ) (m : List ℕ) (s : ScanTasks)
      → first_evictable s.tasks s.order ≡ some (c, m)
      → Held key id at digest s
      → Held key id at digest (evict c m s)
  unfolding evict is_evictable
  evict-Held c m s e h =
      let ended = first_evictable-ended s.tasks s.order c m e in
      record {
        task = h.task;
        entry = ground (
          arith,
          h.entry,
          h.there,
          h.unfinished,
          ended,
          find-keep string_discrete (λ (k : String) (e : ScanIdemEntry). not (e.task_id == c)) key
              s.idem,
        );
        there = ground (arith, h.there, h.unfinished, ended, find-erase ℕ_discrete c id s.tasks);
        unfinished = h.unfinished;
        same = h.same;
      }

  make_room-Held :
      (n : ℕ) (s r : ScanTasks)
      → ((make_room n s ≡ room r) ⊎ (make_room n s ≡ full r))
      → Held key id at digest s
      → Held key id at digest r
  unfolding make_room
  make_room-Held zero s r q h =
      subst (Held key id at digest)
        (elim (Option-cases (first_evictable s.tasks s.order)) [
          | inl e ↦ ground (arith, e, q)
          | inr (p, e) ↦ ground (arith, e, q)
        ])
        h
  make_room-Held (suc n) s r q h = elim (Bool-cases (ltb (length s.order) scan_task_capacity)) [
    | inl b ↦ subst (Held key id at digest) (ground (arith, b, q)) h
    | inr b ↦ elim (Option-cases (first_evictable s.tasks s.order)) [
      | inl e ↦ subst (Held key id at digest) (ground (arith, b, e, q)) h
      | inr ((c, m), e) ↦
          make_room-Held n (evict c m s) r (ground (arith, b, e, q)) (evict-Held c m s e h)
    ]
  ]

  insert-Held :
      (stored : Bool) (now : ℕ) (b : Submission) (s : ScanTasks)
      → b.id ≢ id
      → ((b.idem_key ≡ "") ⊎ (b.idem_key ≢ key))
      → Held key id at digest s
      → Held key id at digest (insert stored now b s).0
  unfolding insert
  insert-Held false now b s i k h = h
  insert-Held true now b s i k h = record {
    task = h.task;
    entry = ground (
      arith,
      h.entry,
      k,
      find-put string_discrete b.idem_key key (record { task_id = b.id; at = now }) s.idem,
    );
    there = ground (arith, h.there, i, find-put ℕ_discrete b.id id (task_of b) s.tasks);
    unfinished = h.unfinished;
    same = h.same;
  }

  add-Held :
      (scanning stored : Bool) (now : ℕ) (b : Submission) (s : ScanTasks)
      → b.id ≢ id
      → ((b.idem_key ≡ "") ⊎ (b.idem_key ≢ key))
      → Held key id at digest s
      → Held key id at digest (add scanning stored now b s).0
  unfolding add
  add-Held true stored now b s i k h = h
  add-Held false stored now b s i k h = helper (make_room (length s.order) s) refl
    where
      helper :
          (r : Room)
          → make_room (length s.order) s ≡ r
          → Held key id at digest
              (elim r as (λ _. ScanTasks × Registered) [
                | room t ↦ insert stored now b t
                | full t ↦ (t, Registered.refused RegisterError.capacity)
                | out_of_fuel ↦ (s, Registered.refused RegisterError.capacity)
              ]).0
      helper (room t) e = insert-Held stored now b t i k (make_room-Held _ s t (inl e) h)
      helper (full t) e = make_room-Held _ s t (inr e) h
      helper out_of_fuel e = h

  pub register-Held :
      (shutting scanning stored : Bool) (now : ℕ) (b : Submission) (s : ScanTasks)
      → b.id ≢ id
      → leb (now - at) scan_idem_ttl ≡ true
      → key ≢ ""
      → Held key id at digest s
      → Held key id at digest (register_scan_task shutting scanning stored now b s).0
  unfolding register_scan_task
  register-Held true scanning stored now b s i l k h = h
  register-Held false scanning stored now b s i l k h =
      helper (known b.idem_key (prune_idem now s)) refl
    where
      pruned : Held key id at digest (prune_idem now s)
      pruned = prune_idem-Held now s l h

      other : known b.idem_key (prune_idem now s) ≡ none → (b.idem_key ≡ "") ⊎ (b.idem_key ≢ key)
      other e = inr (λ q. ground (arith, e, q, known-Held (prune_idem now s) k pruned))

      helper :
          (o : Option (ℕ × AsyncScanTask))
          → known b.idem_key (prune_idem now s) ≡ o
          → Held key id at digest
              (elim o as (λ _. ScanTasks × Registered) [
                | none ↦ add scanning stored now b (forget b.idem_key (prune_idem now s))
                | some (j, t) ↦ (
                  prune_idem now s,
                  ite
                      (string_discrete t.idem_digest b.digest)
                      (Registered.replayed j t)
                      (Registered.refused RegisterError.idem_conflict),
                )
              ]).0
      helper none e =
          add-Held scanning stored now b (forget b.idem_key (prune_idem now s)) i (other e)
            (forget-Held b.idem_key (prune_idem now s) e pruned)
      helper (some (j, t)) e = pruned
