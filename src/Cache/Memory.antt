-- ===== src/Cache/Memory.antt =====
-- `Memory` of internal/cache/cache.go: the shards, behind a hash of the key.
use emby_go.Base.{
  ℕ, zero, suc, ◌+◌, ◌/◌, ◌%◌, List, [], ◌∷◌, Option, none, some, String, ltb, ◌==◌, if◌then◌else◌,
  length, get_elem?, set, map,
}
use emby_go.Cache.Shard
use emby_go.Cache.Shard.{Bytes, Shard, Entry}

abbrev pub max_shards : ℕ
max_shards = 64

abbrev pub slots_per_shard : ℕ
slots_per_shard = 8

unfoldable pub shard_count_for : ℕ → ℕ
shard_count_for max =
    let n = max / slots_per_shard in
    let capped = if ltb max_shards n then max_shards else n in if ltb capped 1 then 1 else capped

unfoldable pub new_shard : ℕ → Shard
new_shard quota = record { quota = quota; order = [] }

-- The quotas of the shards: the first `extra` of them get one slot more.
unfoldable pub quotas : ℕ → ℕ → ℕ → List ℕ
quotas base extra zero = []
quotas base zero (suc n) = base ∷ quotas base zero n
quotas base (suc extra) (suc n) = (base + 1) ∷ quotas base extra n

pub record Memory : Type 0 where
  pub shards : List Shard
  pub max : ℕ

-- The configured maximum; the source asks for less than 1, and gets 256.
unfoldable pub max_or_default : ℕ → ℕ
max_or_default max = if ltb max 1 then 256 else max

unfoldable pub new_memory : ℕ → Memory
unfolding max_or_default shard_count_for quotas new_shard
new_memory configured =
    let max = max_or_default configured in
    let n = shard_count_for max in
    record { shards = map new_shard (quotas (max / n) (max % n) n); max = max }

-- The seeded hash of a key, from Go's hash/maphash.
module _ (hash : String → ℕ) where
  unfoldable pub shard_index : String → Memory → ℕ
  shard_index k m = if length m.shards == 1 then 0 else hash k % length m.shards

  -- An operation on the shard of a key.
  unfoldable pub on_shard : String → (Shard → Shard) → Memory → Memory
  unfolding shard_index
  on_shard k f m = elim (get_elem? m.shards (shard_index k m)) [
    | none ↦ m
    | some s ↦ record m { shards = set m.shards (shard_index k m) (f s) }
  ]

  unfoldable pub get : String → ℕ → Memory → Memory × Option Bytes
  unfolding shard_index
  get k now m = elim (get_elem? m.shards (shard_index k m)) [
    | none ↦ (m, none)
    | some s ↦
        let (s', value) = Shard.get k now s in
        (record m { shards = set m.shards (shard_index k m) s' }, value)
  ]

  -- `Set` and `SetBytes`
  unfoldable pub store : String → Bytes → ℕ → ℕ → Memory → Memory
  unfolding on_shard
  store k value ttl now = on_shard k (Shard.store k value ttl now)

  unfoldable pub delete : String → Memory → Memory
  unfolding on_shard
  delete k = on_shard k (Shard.delete k)

unfoldable pub clear : Memory → Memory
clear m = record m { shards = map Shard.clear m.shards }

-- The calls of a client.
pub data Call : Type 0 where
  gets : String → ℕ → Call
  stores : String → Bytes → ℕ → ℕ → Call
  deletes : String → Call
  clears : Call

module _ (hash : String → ℕ) where
  unfoldable pub step : Call → Memory → Memory
  step (gets k now) m = (get hash k now m).0
  step (stores k value ttl now) m = store hash k value ttl now m
  step (deletes k) m = delete hash k m
  step clears m = clear m

  unfoldable pub run : List Call → Memory → Memory
  unfolding step
  run [] m = m
  run (c ∷ cs) m = run cs (step c m)
