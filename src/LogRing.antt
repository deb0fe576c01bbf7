-- ===== src/LogRing.antt =====
-- internal/logging/ring.go: the ring of recent log entries. `Ring` is the code, `Window` what a
-- snapshot shows of the history, `Places` the lemmas on lists for it.
pub mod Ring
pub mod Places
pub mod Window
mod Tests
