-- ===== src/Playback.antt =====
-- internal/store/playback_sessions.go: playback reports. `Record` is the transaction, `Counting` how
-- plays are counted, `Stops` what comes after a stop, `Events` the bound on the event table.
pub mod Record
pub mod Counting
pub mod Stops
pub mod Events
mod Tests
