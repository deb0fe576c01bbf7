-- ===== src/ScanTasks/Keeps.antt =====
-- Every call keeps what a key stands for, and a repeated submission is answered with the task that is
-- there (internal/server/scan_tasks.go).
use emby_go.Base.{
  ℕ, ◌-◌, ◌≡◌, ◌≢◌, ◌⊎◌, refl, inl, inr, Bool, true, false, not, List, [], ◌∷◌, Option, none, some,
  String, find, put, ltb, leb, if◌then◌else◌, ite, ℕ_discrete, string_discrete, arith, find-put,
}
use emby_go.TaskRecords.Rows.{RecordStatus}
use emby_go.ScanTasks.Registry.{
  AsyncScanTask, ScanTasks, Submission, is_finished, prune_idem, known, forget, register_scan_task,
  replay_scan_task, update_task, set_scan_task_running, finished_task, finish_scan_task,
  scan_idem_ttl,
}
use emby_go.ScanTasks.Requests.{
  Answer, Surroundings, RunOutcome, answer_of, submit_new, admin_submit_scan, end_run,
  max_idempotency_key,
}
use emby_go.ScanTasks.Calls.{Call, perform, run, spares, all_spare}
use emby_go.ScanTasks.Replay.{Held, prune_idem-Held, forget-Held, register-Held}

module _ {key : String} {id at : ℕ} {digest : String} where
  replay-Held :
      (other : String) (now : ℕ) (s : ScanTasks)
      → leb (now - at) scan_idem_ttl ≡ true
      → Held key id at digest s
      → Held key id at digest (replay_scan_task other now s).0
  unfolding replay_scan_task
  replay-Held other now s l h =
      helper (string_discrete other "") (known other (prune_idem now s)) refl
    where
      pruned : Held key id at digest (prune_idem now s)
      pruned = prune_idem-Held now s l h

      helper :
          (d : Dec (other ≡ "")) (o : Option (ℕ × AsyncScanTask))
          → known other (prune_idem now s) ≡ o
          → Held key id at digest
              (ite d
                (s, none)
                (elim o as (λ _. ScanTasks × Option (ℕ × AsyncScanTask)) [
                  | none ↦ (forget other (prune_idem now s), none)
                  | some p ↦ (prune_idem now s, some p)
                ])).0
      helper (yes _) o e = h
      helper (no _) none e = forget-Held other (prune_idem now s) e pruned
      helper (no _) (some p) e = pruned

  submit_new-Held :
      (w : Surroundings) (now : ℕ) (b : Submission) (s : ScanTasks)
      → b.id ≢ id
      → leb (now - at) scan_idem_ttl ≡ true
      → key ≢ ""
      → Held key id at digest s
      → Held key id at digest (submit_new w now b s).0
  unfolding submit_new
  submit_new-Held w now b s i l k h = helper w.admitted w.worker
    where
      helper :
          (a v : Bool)
          → let (t, r) = register_scan_task w.shutting w.scanning w.stored now b s in
            let x : ScanTasks × Answer =
              if not a
              then (s, Answer.not_admitted)
              else if not v
              then (s, Answer.no_worker)
              else (t, answer_of r) in
            Held key id at digest x.0
      helper false v = h
      helper true false = h
      helper true true = register-Held w.shutting w.scanning w.stored now b s i l k h

  update-Held :
      (j : ℕ) (f : AsyncScanTask → AsyncScanTask) (s : ScanTasks)
      → ((t : AsyncScanTask) → (f t).idem_digest ≡ t.idem_digest)
      → ((j ≢ id) ⊎ ((t : AsyncScanTask) → is_finished (f t).status ≡ false))
      → Held key id at digest s
      → Held key id at digest (update_task j f s)
  unfolding update_task
  update-Held j f s c u h = helper (find ℕ_discrete j s.tasks) refl
    where
      elsewhere :
          (t : AsyncScanTask)
          → j ≢ id
          → Held key id at digest (record s { tasks = put ℕ_discrete j (f t) s.tasks })
      elsewhere t n = record {
        task = h.task;
        entry = h.entry;
        there = ground (arith, h.there, n, find-put ℕ_discrete j id (f t) s.tasks);
        unfinished = h.unfinished;
        same = h.same;
      }

      helper :
          (o : Option AsyncScanTask)
          → find ℕ_discrete j s.tasks ≡ o
          → Held key id at digest (elim o as (λ _. ScanTasks) [
            | none ↦ s
            | some t ↦ record s { tasks = put ℕ_discrete j (f t) s.tasks }
          ])
      helper none e = h
      helper (some t) e = elim u [
        | inl n ↦ elsewhere t n
        | inr fin ↦ elim (ℕ_discrete j id) [
          | yes q ↦ record {
            task = f t;
            entry = h.entry;
            there = ground (arith, q, find-put ℕ_discrete j id (f t) s.tasks);
            unfinished = fin t;
            same = ground (arith, c t, h.same, h.there, e, q);
          }
          | no n ↦ elsewhere t n
        ]
      ]

  -- The summaries do not matter.
  summaries-Held :
      (s t : ScanTasks)
      → t.tasks ≡ s.tasks
      → t.idem ≡ s.idem
      → Held key id at digest s
      → Held key id at digest t
  summaries-Held s t e i h = record {
    task = h.task;
    entry = rw (i) h.entry;
    there = rw (e) h.there;
    unfinished = h.unfinished;
    same = h.same;
  }

  running-Held :
      (j : ℕ) (now : String) (stored : Bool) (s : ScanTasks)
      → Held key id at digest s
      → Held key id at digest (set_scan_task_running j now stored s)
  unfolding set_scan_task_running is_finished
  running-Held j now stored s h =
      let f = λ (t : AsyncScanTask). record t { status = RecordStatus.running; started_at = now } in
      summaries-Held (update_task j f s) _ (ground arith) (ground arith)
        (update-Held j f s (λ t. refl) (inr (λ t. refl)) h)

  finish-Held :
      (j : ℕ) (status : RecordStatus) (now : String) (result error : Option String) (stored : Bool)
      (s : ScanTasks)
      → j ≢ id
      → Held key id at digest s
      → Held key id at digest (finish_scan_task j status now result error stored s)
  unfolding finish_scan_task
  finish-Held j status now result error stored s n h =
      let f = finished_task status now result error in
      summaries-Held (update_task j f s) _ (ground arith) (ground arith)
        (update-Held j f s (λ t. ground arith) (inl n) h)

  submit-Held :
      (byte_length : String → ℕ) (w : Surroundings) (now : ℕ) (b : Submission) (s : ScanTasks)
      → b.id ≢ id
      → leb (now - at) scan_idem_ttl ≡ true
      → key ≢ ""
      → Held key id at digest s
      → Held key id at digest (admin_submit_scan byte_length w now b s).0
  unfolding admin_submit_scan
  submit-Held byte_length w now b s i l k h =
      helper (string_discrete b.idem_key "") (ltb max_idempotency_key (byte_length b.idem_key))
        (replay_scan_task b.idem_key now s).1
    where
      kept : Held key id at digest (replay_scan_task b.idem_key now s).0
      kept = replay-Held b.idem_key now s l h

      helper :
          (d : Dec (b.idem_key ≡ "")) (long : Bool) (o : Option (ℕ × AsyncScanTask))
          → let t = (replay_scan_task b.idem_key now s).0 in
            let x : ScanTasks × Answer = ite d (submit_new w now b s) (
              if long then (s, Answer.key_too_long) else elim o as (λ _. ScanTasks × Answer) [
                | none ↦ submit_new w now b t
                | some (j, task) ↦ (
                  t,
                  ite
                      (string_discrete task.idem_digest b.digest)
                      (Answer.again j task)
                      Answer.idempotency_conflict,
                )
              ]) in
            Held key id at digest x.0
      helper (yes _) long o = submit_new-Held w now b s i l k h
      helper (no _) true o = h
      helper (no _) false none = submit_new-Held w now b _ i l k kept
      helper (no _) false (some (j, task)) = kept

  perform-Held :
      (byte_length : String → ℕ) (c : Call) (s : ScanTasks)
      → key ≢ ""
      → spares id at c ≡ true
      → Held key id at digest s
      → Held key id at digest (perform byte_length c s)
  unfolding perform spares end_run
  perform-Held byte_length (Call.submit w now b) s k p h =
      submit-Held byte_length w now b s (ground arith) (ground arith) k h
  perform-Held byte_length (Call.ask other now) s k p h = replay-Held other now s p h
  perform-Held byte_length (Call.start j now stored) s k p h = running-Held j now stored s h
  perform-Held byte_length (Call.stop j now (RunOutcome.done r) stored) s k p h =
      finish-Held j _ now (some r) none stored s (ground arith) h
  perform-Held byte_length (Call.stop j now (RunOutcome.scan_busy e) stored) s k p h =
      finish-Held j _ now none (some e) stored s (ground arith) h
  perform-Held byte_length (Call.stop j now (RunOutcome.failed r e) stored) s k p h =
      finish-Held j _ now (some r) (some e) stored s (ground arith) h

  pub run-Held :
      (byte_length : String → ℕ) (l : List Call) (s : ScanTasks)
      → key ≢ ""
      → all_spare id at l ≡ true
      → Held key id at digest s
      → Held key id at digest (run byte_length l s)
  unfolding run all_spare
  run-Held byte_length [] s k p h = h
  run-Held byte_length (c ∷ l) s k p h =
      run-Held byte_length l (perform byte_length c s) k (ground arith)
        (perform-Held byte_length c s k (ground arith) h)
