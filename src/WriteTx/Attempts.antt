-- ===== src/WriteTx/Attempts.antt =====
-- The write transaction that is tried again while the database is busy (internal/store/write_tx.go).
-- What one transaction returns and when the context is done are arguments.
use emby_go.Base.{ℕ, zero, suc, ◌+◌, ◌*◌, ◌^◌, Bool, Option, if◌then◌else◌}
use emby_go.WriteTx.Gate.{WriterGate, unlock}

-- The outcome of one transaction: it is committed, the database is busy, or another error.
pub data Once {ℓ} (E : Type ℓ) : Type ℓ where
  committed busy : Once E
  failed : E → Once E

-- What `writeTxContext` returns; `gave_up` is the error of the context.
pub data TxResult {ℓ} (E : Type ℓ) : Type ℓ where
  stored still_busy gave_up : TxResult E
  rejected : E → TxResult E

abbrev pub max_attempts : ℕ
max_attempts = 3

-- The wait after an attempt, in milliseconds.
abbrev pub wait_after : ℕ → ℕ
wait_after attempt = 10 * 2 ^ attempt

module _ {ℓ} {E : Type ℓ} (once : ℕ → Once E) (done_before done_waiting : ℕ → Bool) where
  -- The loop from an attempt on, with the number of attempts that are left; the result with the number
  -- of transactions that ran and the time that it waited.
  unfoldable pub attempts : ℕ → ℕ → TxResult E × ℕ × ℕ
  attempts zero i = (TxResult.still_busy, 0, 0)
  attempts (suc left) i =
      let (r, ran, waited) = attempts left (suc i) in
      if done_before i then (TxResult.gave_up, 0, 0) else elim (once i) [
        | committed ↦ (TxResult.stored, 1, 0)
        | failed e ↦ (TxResult.rejected e, 1, 0)
        | busy ↦
            if done_waiting i then (TxResult.gave_up, 1, 0) else (r, suc ran, wait_after i + waited)
      ]

  -- `writeTxContext` of a caller, once it has the lock: the attempts, then the lock is released.
  unfoldable pub write_tx : (ℕ → Bool) → WriterGate → Option WriterGate × TxResult E
  unfolding attempts unlock
  write_tx is_done g = (unlock is_done g, (attempts max_attempts 0).0)
