-- ===== src/Cache/Tests.antt =====
-- The cache of internal/cache/cache.go at concrete inputs.
use text.Mathlib.TextEquality.{eq_iff}
use emby_go.Base.{
  ℕ, ◌+◌, ◌≤◌, ◌≡◌, ◌≢◌, refl, ◌||◌, List, [], ◌∷◌, none, some, String, string_discrete, leb,
  if◌then◌else◌, arith, total,
}
use emby_go.Cache.Shard.{Shard, Entry, drop_last, find_entry, store, get}
use emby_go.Cache.Memory
use emby_go.Cache.Shard
use emby_go.Cache.Refines.{spec_get, spec_run, run-refines}
use emby_go.Cache.Memory.{new_memory, Call, gets, stores, deletes, run}
use emby_go.Cache.Reads.{visible, victim, last_key, visible-store_self, visible-store_ne}
use emby_go.Cache.Quota.{entries, run_within_max}

abbrev old_entry : Entry
old_entry = record { key = "a"; value = 1 ∷ []; expires = 50 }

abbrev new_entry : Entry
new_entry = record { key = "b"; value = 2 ∷ []; expires = 0 }

abbrev full_shard : Shard
full_shard = record { quota = 2; order = new_entry ∷ old_entry ∷ [] }

-- A write to the full shard takes out the older of its entries.
evicted :
    (store "c" (3 ∷ []) 10 100 full_shard).order
    ≡ record { key = "c"; value = 3 ∷ []; expires = 110 } ∷ new_entry ∷ []
unfolding store find_entry string_discrete drop_last
evicted = refl

visible-store_self_example :
    visible "c" 105 (store "c" (3 ∷ []) 10 100 full_shard)
    ≡ (if leb 10 0 || leb 105 (100 + 10) then some (3 ∷ []) else none)
visible-store_self_example = visible-store_self "c" (3 ∷ []) 10 100 full_shard (omega arith) 105

c_not_b : ◌≢◌ {A = String} "c" "b"
c_not_b = ground (arith, eq_iff "c" "b")

b_not_victim : victim "c" full_shard ≢ some "b"
unfolding victim find_entry string_discrete last_key
b_not_victim e = ground (arith, eq_iff "a" "b")

visible-store_ne_example :
    visible "b" 105 (store "c" (3 ∷ []) 10 100 full_shard) ≡ visible "b" 105 full_shard
visible-store_ne_example =
    visible-store_ne "c" (3 ∷ []) 10 100 full_shard (omega arith) "b" 105 c_not_b b_not_victim

abbrev calls : List Call
calls = stores "a" (1 ∷ []) 10 5 ∷ stores "b" (2 ∷ []) 0 6 ∷ gets "a" 30 ∷ deletes "b" ∷ []

run_within_max_example :
    total entries (run (λ k. 7) calls (new_memory 17)).shards ≤ (new_memory 17).max
run_within_max_example = run_within_max (λ k. 7) 17 calls

abbrev some_calls : List Call
some_calls =
    stores "a" (1 ∷ []) 10 100
    ∷ stores "b" (2 ∷ []) 0 101
    ∷ stores "a" (3 ∷ []) 0 102
    ∷ gets "b" 103
    ∷ deletes "b"
    ∷ []

abbrev by_length : String → ℕ
by_length key = 7

run-refines_example : spec_get "a" 200 (spec_run some_calls []) ≡ some (3 ∷ [])
unfolding Memory.get Memory.run Memory.new_memory Shard.get find_entry string_discrete Memory.delete
    Memory.store Shard.delete Shard.remove store
run-refines_example = run-refines by_length 100 some_calls "a" 200 (3 ∷ []) refl
