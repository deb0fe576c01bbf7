-- ===== src/Monitor.antt =====
-- internal/server/monitor.go: the counts of requests by minute. `Ring` has the shards and their
-- snapshot, `Merged` compares them with one ring.
pub mod Ring
pub mod Merged
mod Tests
