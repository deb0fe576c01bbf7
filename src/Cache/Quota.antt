-- ===== src/Cache/Quota.antt =====
-- The capacity of internal/cache/cache.go: the shards' quotas add up to the maximum, and no shard
-- exceeds its own.
use emby_go.Base.{
  ℕ, zero, suc, ◌+◌, ◌*◌, ◌/◌, ◌%◌, ◌≤◌, ◌≡◌, refl, ap, ◌∙◌, inl, inr, List, [], ◌∷◌, some, String,
  leb, if◌then◌else◌, length, arith, Option-cases, get_elem?, set, map, total, total-set,
}
use emby_go.Cache.Shard.{Bytes, Shard, Entry, find_entry}
use emby_go.Cache.Shard
use emby_go.Cache.Memory.{
  Memory, shard_count_for, quotas, new_shard, new_memory, max_or_default, shard_index, on_shard,
  store, delete, clear, Call, gets, stores, deletes, clears, step, run,
}
use emby_go.Cache.Memory
use emby_go.Cache.Reads.{length-drop_last, length-remove-some, length-remove-le}

abbrev pub entries : Shard → ℕ
entries s = length s.order

abbrev pub quota_of : Shard → ℕ
quota_of s = s.quota

quotas_sum :
    (base extra n : ℕ)
    → extra ≤ n
    → total quota_of (map new_shard (quotas base extra n)) ≡ base * n + extra
unfolding quotas new_shard total
quotas_sum base zero zero h = omega arith
quotas_sum base (suc e) zero h = absurd (omega arith)
quotas_sum base zero (suc n) h = grind (arith, quotas_sum base 0 n (omega arith))
quotas_sum base (suc e) (suc n) h = omega (arith, quotas_sum base e n (omega arith))

length-quotas : (base extra n : ℕ) → length (map new_shard (quotas base extra n)) ≡ n
unfolding quotas
length-quotas base extra zero = refl
length-quotas base zero (suc n) = ap suc (length-quotas base 0 n)
length-quotas base (suc e) (suc n) = ap suc (length-quotas base e n)

shard_count_bounds : (max : ℕ) → (1 ≤ shard_count_for max) × (shard_count_for max ≤ 64)
unfolding shard_count_for
shard_count_bounds max = ground arith

-- A new cache has between 1 and 64 shards, whose quotas add up to the maximum: that which is
-- configured, or 256 where that is 0.
new_memory_quotas :
    (configured : ℕ)
    → let m = new_memory configured in
      (total quota_of m.shards ≡ m.max)
      × (m.max ≡ (if leb 1 configured then configured else 256))
      × (1 ≤ length m.shards)
      × (length m.shards ≤ 64)
unfolding new_memory
new_memory_quotas configured =
    let max = max_or_default configured in
    let n = shard_count_for max in
    let (low, high) = shard_count_bounds max in
    let len = length-quotas (max / n) (max % n) n in
    (
      quotas_sum (max / n) (max % n) n (ground (arith, low)) ∙ ground (arith, low),
      ground arith,
      omega (arith, len, low),
      omega (arith, len, high),
    )

-- Every shard is within its quota.
AllFit : List Shard → Type 0
AllFit [] = Unit {0}
AllFit (s ∷ l) = (entries s ≤ s.quota) × AllFit l

AllFit-set :
    (l : List Shard) (i : ℕ) (s : Shard) → entries s ≤ s.quota → AllFit l → AllFit (set l i s)
unfolding AllFit
AllFit-set [] i s h f = f
AllFit-set (t ∷ l) zero s h f = (h, f.1)
AllFit-set (t ∷ l) (suc i) s h f = (f.0, AllFit-set l i s h f.1)

AllFit-get_elem :
    (l : List Shard) (i : ℕ) (s : Shard) → AllFit l → get_elem? l i ≡ some s → entries s ≤ s.quota
unfolding AllFit
AllFit-get_elem [] i s f h = ground arith
AllFit-get_elem (t ∷ l) zero s f h = ground arith
AllFit-get_elem (t ∷ l) (suc i) s f h = AllFit-get_elem l i s f.1 h

AllFit-total : (l : List Shard) → AllFit l → total entries l ≤ total quota_of l
unfolding AllFit total
AllFit-total [] f = omega arith
AllFit-total (t ∷ l) f = omega (arith, f.0, AllFit-total l f.1)

-- An operation on a shard that keeps it within its quota, and the quota.
abbrev IsFitting : (Shard → Shard) → Type 0
IsFitting f =
    (s : Shard) → entries s ≤ s.quota → (entries (f s) ≤ s.quota) × ((f s).quota ≡ s.quota)

get-IsFitting : (k : String) (now : ℕ) → IsFitting (λ s. (Shard.get k now s).0)
unfolding Shard.get
get-IsFitting k now s h = elim (Option-cases (find_entry k s.order)) [
  | inl e ↦ ground (arith, e)
  | inr (f, e) ↦ ground (arith, e, length-remove-some k s.order f, length-remove-le k s.order)
]

insert-IsFitting : (e : Entry) → IsFitting (Shard.insert e)
unfolding Shard.insert
insert-IsFitting e s h = elim (Option-cases (find_entry e.key s.order)) [
  | inl n ↦ ground (arith, n, length-drop_last e s.order)
  | inr (f, n) ↦ ground (arith, n, length-remove-some e.key s.order f)
]

store-IsFitting : (k : String) (v : Bytes) (ttl now : ℕ) → IsFitting (Shard.store k v ttl now)
unfolding Shard.store
store-IsFitting k v ttl now s h = insert-IsFitting _ s h

delete-IsFitting : (k : String) → IsFitting (Shard.delete k)
unfolding Shard.delete
delete-IsFitting k s h = ground (arith, length-remove-le k s.order)

-- What every call keeps: the maximum, the sum of the quotas, and the quotas.
record Fits (max : ℕ) (m : Memory) : Type 0 where
  bound : m.max ≡ max
  sum : total quota_of m.shards ≡ max
  fit : AllFit m.shards

set-Fits :
    {max : ℕ} (m : Memory) (i : ℕ) (s t : Shard)
    → get_elem? m.shards i ≡ some s
    → entries t ≤ s.quota
    → t.quota ≡ s.quota
    → Fits max m
    → Fits max (record m { shards = set m.shards i t })
set-Fits m i s t at le same f = record {
  bound = f.bound;
  sum = omega (arith, total-set quota_of m.shards i s t at, f.sum);
  fit = AllFit-set m.shards i t (omega arith) f.fit;
}

on_shard-Fits :
    {max : ℕ} (hash : String → ℕ) (k : String) (f : Shard → Shard) (m : Memory)
    → IsFitting f
    → Fits max m
    → Fits max (on_shard hash k f m)
unfolding on_shard
on_shard-Fits hash k f m fits v = elim (Option-cases (get_elem? m.shards (shard_index hash k m))) [
  | inl e ↦ rw (e, on_shard) v
  | inr (s, e) ↦
      let (le, same) = fits s (AllFit-get_elem m.shards _ s v.fit e) in
      rw (e, on_shard) (set-Fits m (shard_index hash k m) s (f s) e le same v)
]

clear-total : (l : List Shard) → total quota_of (map Shard.clear l) ≡ total quota_of l
unfolding total Shard.clear
clear-total [] = refl
clear-total (s ∷ l) = omega (arith, clear-total l)

clear_fit : (l : List Shard) → AllFit (map Shard.clear l)
unfolding AllFit Shard.clear
clear_fit [] = tt
clear_fit (s ∷ l) = (omega arith, clear_fit l)

step-Fits :
    {max : ℕ} (hash : String → ℕ) (c : Call) (m : Memory) → Fits max m → Fits max (step hash c m)
unfolding step store delete clear Memory.get
step-Fits hash (gets k now) m v = elim (Option-cases (get_elem? m.shards (shard_index hash k m))) [
  | inl e ↦ rw (e, step, Memory.get) v
  | inr (s, e) ↦
      let (le, same) = get-IsFitting k now s (AllFit-get_elem m.shards _ s v.fit e) in
      rw (e, step, Memory.get)
        (set-Fits m (shard_index hash k m) s (Shard.get k now s).0 e le same v)
]
step-Fits hash (stores k value ttl now) m v =
    on_shard-Fits hash k _ m (store-IsFitting k value ttl now) v
step-Fits hash (deletes k) m v = on_shard-Fits hash k _ m (delete-IsFitting k) v
step-Fits hash clears m v = record {
  bound = v.bound;
  sum = clear-total m.shards ∙ v.sum;
  fit = clear_fit m.shards;
}

run-Fits :
    {max : ℕ} (hash : String → ℕ) (cs : List Call) (m : Memory)
    → Fits max m
    → Fits max (run hash cs m)
unfolding run
run-Fits hash [] m v = v
run-Fits hash (c ∷ cs) m v = run-Fits hash cs (step hash c m) (step-Fits hash c m v)

new_fit : (qs : List ℕ) → AllFit (map new_shard qs)
unfolding AllFit new_shard
new_fit [] = tt
new_fit (q ∷ qs) = (omega arith, new_fit qs)

new_memory-Fits : (configured : ℕ) → Fits (max_or_default configured) (new_memory configured)
unfolding new_memory
new_memory-Fits configured = record {
  bound = refl;
  sum = (new_memory_quotas configured).0;
  fit = new_fit _;
}

-- After any calls on a new cache, under any hash, the entries of all shards together are never more
-- than the maximum.
pub run_within_max :
    (hash : String → ℕ) (configured : ℕ) (cs : List Call)
    → total entries (run hash cs (new_memory configured)).shards ≤ (new_memory configured).max
run_within_max hash configured cs =
    let start = new_memory-Fits configured in
    let v = run-Fits hash cs (new_memory configured) start in
    omega (arith, AllFit-total _ v.fit, v.sum, start.bound)
