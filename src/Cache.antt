-- ===== src/Cache.antt =====
-- internal/cache/cache.go: the in-process cache. `Shard` is one LRU list with its quota, `Memory`
-- the shards behind the hash, `Reads` what can be read after a write, `Quota` the capacity, `Finds` and
-- `Refines` the whole cache against a map that forgets nothing.
pub mod Shard
pub mod Memory
pub mod Reads
pub mod Quota
pub mod Finds
pub mod Refines
mod Tests
