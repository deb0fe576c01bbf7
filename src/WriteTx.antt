-- ===== src/WriteTx.antt =====
-- internal/store/write_tx.go: the lock of the single writer and the transactions under it. `Gate` is
-- the lock with its queue, `Attempts` the transaction that is tried again while the database is busy.
-- `Turns` is about who gets the lock, `Tried` about the attempts.
pub mod Gate
pub mod Attempts
pub mod Turns
pub mod Tried
mod Tests
