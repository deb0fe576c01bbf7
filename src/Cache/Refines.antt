-- ===== src/Cache/Refines.antt =====
-- The cache of internal/cache/cache.go against a map that holds for each key what was stored last and
-- forgets nothing.
use emby_go.Base.{
  ℕ, zero, suc, ◌%◌, ◌≡◌, ◌≢◌, refl, sym, ap, subst, ◌∙◌, ◌⊎◌, inl, inr, List, [], ◌∷◌, Option,
  none, some, String, Table, find, put, erase, find-put, find-erase, string_discrete, length,
  length-set, get_elem?, set, map, ◌==◌, if◌then◌else◌, arith, Option-cases,
}
use emby_go.Cache.Shard
use emby_go.Cache.Shard.{Bytes, Entry, Shard, find_entry, is_expired, expiry, insert}
use emby_go.Cache.Memory.{
  Memory, Call, on_shard, store, delete, clear, gets, stores, deletes, clears, shard_index, get,
  step, run, new_memory, new_shard,
}
use emby_go.Cache.Reads.{IsDistinct}
use emby_go.Cache.Finds.{
  find-delete, find-get, get-IsDistinct, find-insert, insert-IsDistinct, delete-IsDistinct,
}

-- The map after a call.
unfoldable pub spec_step : Call → Table String Entry → Table String Entry
unfolding expiry
spec_step (gets k now) a = a
spec_step (stores k value ttl now) a =
    put string_discrete k (record { key = k; value = value; expires = expiry ttl now }) a
spec_step (deletes k) a = erase string_discrete k a
spec_step clears a = []

unfoldable pub spec_run : List Call → Table String Entry → Table String Entry
unfolding spec_step
spec_run [] a = a
spec_run (c ∷ cs) a = spec_run cs (spec_step c a)

-- What the map shows at a time.
unfoldable pub spec_get : String → ℕ → Table String Entry → Option Bytes
unfolding is_expired
spec_get k now a = elim (find string_discrete k a) [
  | none ↦ none
  | some e ↦ if is_expired e now then none else some e.value
]

get_elem-set :
    (l : List Shard) (i j : ℕ) (v s : Shard)
    → get_elem? (set l i v) j ≡ some s
    → ((i ≡ j) × (s ≡ v)) ⊎ ((i ≢ j) × (get_elem? l j ≡ some s))
get_elem-set [] i j v s h = ground arith
get_elem-set (x ∷ l) zero zero v s h = inl (refl, ground arith)
get_elem-set (x ∷ l) zero (suc j) v s h = inr ((λ e. omega arith), h)
get_elem-set (x ∷ l) (suc i) zero v s h = inr ((λ e. omega arith), h)
get_elem-set (x ∷ l) (suc i) (suc j) v s h = elim (get_elem-set l i j v s h) [
  | inl (e, f) ↦ inl (ap suc e, f)
  | inr (n, f) ↦ inr ((λ e. n (omega arith)), f)
]

module _ (hash : String → ℕ) where
  -- The shard of a key among `n`.
  abbrev at : ℕ → String → ℕ
  at n k = if n == 1 then 0 else hash k % n

  -- Every entry that a shard shows is the one of the map.
  pub record Refines (n : ℕ) (m : Memory) (a : Table String Entry) : Type 0 where
    pub shards : length m.shards ≡ n
    pub distinct : (i : ℕ) (s : Shard) → get_elem? m.shards i ≡ some s → IsDistinct s.order
    pub last :
        (i : ℕ) (s : Shard) (q : String) (e : Entry)
        → get_elem? m.shards i ≡ some s
        → at n q ≡ i
        → find_entry q s.order ≡ some e
        → find string_discrete q a ≡ some e

  -- A change of the shard of a key.
  set-Refines :
      (n : ℕ) (m : Memory) (a b : Table String Entry) (k : String) (s t : Shard)
      → Refines n m a
      → get_elem? m.shards (at n k) ≡ some s
      → IsDistinct t.order
      → ((q : String) (e : Entry)
          → at n q ≡ at n k
          → find_entry q t.order ≡ some e
          → find string_discrete q b ≡ some e)
      → ((q : String) → q ≢ k → find string_discrete q b ≡ find string_discrete q a)
      → Refines n (record m { shards = set m.shards (at n k) t }) b
  set-Refines n m a b k s t r g d f o = record {
    shards = length-set m.shards (at n k) t ∙ r.shards;
    distinct = λ i u h. elim (get_elem-set m.shards (at n k) i t u h) [
      | inl (_, e) ↦ subst (λ (x : Shard). IsDistinct x.order) (sym e) d
      | inr (_, e) ↦ r.distinct i u e
    ];
    last = λ i u q e h p z. elim (get_elem-set m.shards (at n k) i t u h) [
      | inl (x, y) ↦ f q e (p ∙ sym x) (subst (λ (v : Shard). find_entry q v.order ≡ some e) y z)
      | inr (x, y) ↦ o q (λ v. x (sym (ap (at n) v) ∙ p)) ∙ r.last i u q e y p z
    ];
  }

  -- A key without a shard.
  none-Refines :
      (n : ℕ) (m : Memory) (a b : Table String Entry) (k : String)
      → Refines n m a
      → get_elem? m.shards (at n k) ≡ none
      → ((q : String) → q ≢ k → find string_discrete q b ≡ find string_discrete q a)
      → Refines n m b
  none-Refines n m a b k r g o = record {
    shards = r.shards;
    distinct = r.distinct;
    last = λ i u q e h p z. elim (string_discrete q k) [
      | yes v ↦
          ground (arith, subst (λ (x : String). get_elem? m.shards (at n x) ≡ none) (sym v) g, h, p)
      | no v ↦ o q v ∙ r.last i u q e h p z
    ];
  }

  index-at : (n : ℕ) (m : Memory) (k : String) → length m.shards ≡ n → shard_index hash k m ≡ at n k
  unfolding shard_index
  index-at n m k h = ap (λ (x : ℕ). at x k) h

  -- A shard that is changed by `f`, with the map after it.
  on_shard-Refines :
      (n : ℕ) (m : Memory) (a b : Table String Entry) (k : String) (f : Shard → Shard)
      → Refines n m a
      → ((s : Shard) → IsDistinct s.order → IsDistinct (f s).order)
      → ((s : Shard) (q : String) (e : Entry)
          → IsDistinct s.order
          → (find_entry q s.order ≡ some e → find string_discrete q a ≡ some e)
          → find_entry q (f s).order ≡ some e
          → find string_discrete q b ≡ some e)
      → ((q : String) → q ≢ k → find string_discrete q b ≡ find string_discrete q a)
      → Refines n (on_shard hash k f m) b
  unfolding on_shard
  on_shard-Refines n m a b k f r d g o =
      let ix = index-at n m k r.shards in
      elim (Option-cases (get_elem? m.shards (at n k))) [
        | inl e ↦
            let same : on_shard hash k f m ≡ m = ground (arith, ix, e) in
            subst (λ (x : Memory). Refines n x b) (sym same) (none-Refines n m a b k r e o)
        | inr (s, e) ↦
            let changed : on_shard hash k f m ≡ record m { shards = set m.shards (at n k) (f s) } =
              ground (arith, ix, e) in
            subst (λ (x : Memory). Refines n x b) (sym changed)
              (set-Refines n m a b k s (f s) r e (d s (r.distinct (at n k) s e))
                (λ q u p z. g s q u (r.distinct (at n k) s e) (λ y. r.last (at n k) s q u e p y) z)
                o)
      ]

  get-on_shard :
      (k : String) (now : ℕ) (m : Memory)
      → (get hash k now m).0 ≡ on_shard hash k (λ (s : Shard). (Shard.get k now s).0) m
  unfolding get on_shard
  get-on_shard k now m = elim (Option-cases (get_elem? m.shards (shard_index hash k m))) [
    | inl e ↦ ground (arith, e)
    | inr (s, e) ↦ ground (arith, e)
  ]

  clear-order :
      (l : List Shard) (i : ℕ) (s : Shard) → get_elem? (map Shard.clear l) i ≡ some s → s.order ≡ []
  unfolding Shard.clear
  clear-order [] i s h = ground arith
  clear-order (x ∷ l) zero s h = ground arith
  clear-order (x ∷ l) (suc i) s h = clear-order l i s h

  length-map_shards : (f : Shard → Shard) (l : List Shard) → length (map f l) ≡ length l
  length-map_shards f [] = refl
  length-map_shards f (x ∷ l) = ap suc (length-map_shards f l)

  step-Refines :
      (n : ℕ) (c : Call) (m : Memory) (a : Table String Entry)
      → Refines n m a
      → Refines n (step hash c m) (spec_step c a)
  unfolding step spec_step store delete clear find_entry Shard.store insert
  step-Refines n (gets k now) m a r =
      subst (λ (x : Memory). Refines n x a) (sym (get-on_shard k now m))
        (on_shard-Refines n m a a k (λ (s : Shard). (Shard.get k now s).0) r
          (λ s d. get-IsDistinct k now s d) (λ s q e d g z. g (find-get k q now s e d z))
          (λ q _. refl))
  step-Refines n (stores k value ttl now) m a r =
      let x : Entry = record { key = k; value = value; expires = expiry ttl now } in
      on_shard-Refines n m a (put string_discrete k x a) k (insert x) r
        (λ s d. insert-IsDistinct x s d)
        (λ s q e d g z. elim (find-insert x q s e z) [
          | inl (p, v) ↦ ground (arith, p, v, find-put string_discrete k q x a)
          | inr (p, v) ↦ ground (arith, p, g v, find-put string_discrete k q x a)
        ])
        (λ q p. ground (arith, p, find-put string_discrete k q x a))
  step-Refines n (deletes k) m a r =
      on_shard-Refines n m a (erase string_discrete k a) k (Shard.delete k) r
        (λ s d. delete-IsDistinct k s d)
        (λ s q e d g z.
          let (p, v) = find-delete k q s e d z in
          ground (arith, p, g v, find-erase string_discrete k q a))
        (λ q p. ground (arith, p, find-erase string_discrete k q a))
  step-Refines n clears m a r = record {
    shards = length-map_shards Shard.clear m.shards ∙ r.shards;
    distinct = λ i s h. subst IsDistinct (sym (clear-order m.shards i s h)) tt;
    last = λ i s q e h p z. ground (arith, clear-order m.shards i s h, z);
  }

  run-Refines :
      (n : ℕ) (l : List Call) (m : Memory) (a : Table String Entry)
      → Refines n m a
      → Refines n (run hash l m) (spec_run l a)
  unfolding run spec_run
  run-Refines n [] m a r = r
  run-Refines n (c ∷ l) m a r =
      run-Refines n l (step hash c m) (spec_step c a) (step-Refines n c m a r)

  new-order :
      (l : List ℕ) (i : ℕ) (s : Shard) → get_elem? (map new_shard l) i ≡ some s → s.order ≡ []
  unfolding new_shard
  new-order [] i s h = ground arith
  new-order (x ∷ l) zero s h = ground arith
  new-order (x ∷ l) (suc i) s h = new-order l i s h

  new_memory-Refines :
      (configured : ℕ) → Refines (length (new_memory configured).shards) (new_memory configured) []
  unfolding new_memory find_entry
  new_memory-Refines configured = record {
    shards = refl;
    distinct = λ i s h. subst IsDistinct (sym (new-order _ i s h)) tt;
    last = λ i s q e h p z. ground (arith, new-order _ i s h, z);
  }

  -- Whatever calls a new cache gets, what it then shows for a key is what was stored under the key last,
  -- with the lifetime that it was stored with, and not deleted or cleared since: it shows what a map that
  -- forgets nothing shows, or nothing.
  pub run-refines :
      (configured : ℕ) (l : List Call) (k : String) (now : ℕ) (value : Bytes)
      → (get hash k now (run hash l (new_memory configured))).1 ≡ some value
      → spec_get k now (spec_run l []) ≡ some value
  unfolding get spec_get Shard.get
  run-refines configured l k now value h =
      let n = length (new_memory configured).shards in
      let m : Memory = run hash l (new_memory configured) in
      let r : Refines n m (spec_run l []) =
        run-Refines n l (new_memory configured) [] (new_memory-Refines configured) in
      let ix = index-at n m k r.shards in
      elim (Option-cases (get_elem? m.shards (at n k))) [
        | inl e ↦ ground (arith, ix, e, h)
        | inr (s, e) ↦ elim (Option-cases (find_entry k s.order)) [
          | inl f ↦ ground (arith, ix, e, h, f)
          | inr (x, f) ↦ ground (arith, ix, e, h, f, r.last (at n k) s k x e refl f)
        ]
      ]
