-- ===== src/WriteTx/Tried.antt =====
-- The attempts of a write transaction (internal/store/write_tx.go).
use emby_go.Base.{
  ℕ, subst, ap, zero, suc, ◌+◌, ◌≤◌, ◌≡◌, refl, Bool, true, false, ◌||◌, if◌then◌else◌, arith,
}
use emby_go.WriteTx.Attempts.{
  Once, committed, busy, failed, TxResult, max_attempts, wait_after, attempts,
}

module _ {E : Type 0} (once : ℕ → Once E) (done_before done_waiting : ℕ → Bool) where
  abbrev pub is_busy : Once E → Bool
  is_busy Once.busy = true
  is_busy Once.committed = false
  is_busy (Once.failed e) = false

  -- Whether `n` transactions from one on find the database busy.
  unfoldable pub all_busy : ℕ → ℕ → Bool
  all_busy zero i = true
  all_busy (suc n) i = let rest = all_busy n (suc i) in if is_busy (once i) then rest else false

  -- Whether the context is done before or after one of `n` transactions from one on.
  unfoldable pub is_done_within : ℕ → ℕ → Bool
  is_done_within zero i = false
  is_done_within (suc n) i = (done_before i || done_waiting i) || is_done_within n (suc i)

  -- How the loop ends: what it returns, after how many transactions.
  abbrev pub EndsWith : ℕ → ℕ → TxResult E → ℕ → Type 0
  EndsWith n i TxResult.stored ran =
      (m : ℕ) × (ran ≡ suc m) × (all_busy m i ≡ true) × (once (i + m) ≡ Once.committed)
  EndsWith n i (TxResult.rejected e) ran =
      (m : ℕ) × (ran ≡ suc m) × (all_busy m i ≡ true) × (once (i + m) ≡ Once.failed e)
  EndsWith n i TxResult.still_busy ran = (ran ≡ n) × (all_busy n i ≡ true)
  EndsWith n i TxResult.gave_up ran = is_done_within n i ≡ true

  -- After an attempt that finds the database busy, and a wait, the rest decides.
  later-EndsWith :
      (n i : ℕ) (r : TxResult E) (ran : ℕ)
      → once i ≡ Once.busy
      → EndsWith n (suc i) r ran
      → EndsWith (suc n) i r (suc ran)
  unfolding all_busy is_done_within
  later-EndsWith n i TxResult.stored ran o (m, e, b, c) =
      let at : suc i + m ≡ i + suc m = omega arith in
      (suc m, ap suc e, ground (arith, o, b), subst (λ (j : ℕ). once j ≡ Once.committed) at c)
  later-EndsWith n i (TxResult.rejected f) ran o (m, e, b, c) =
      let at : suc i + m ≡ i + suc m = omega arith in
      (suc m, ap suc e, ground (arith, o, b), subst (λ (j : ℕ). once j ≡ Once.failed f) at c)
  later-EndsWith n i TxResult.still_busy ran o (e, b) = (ap suc e, ground (arith, o, b))
  later-EndsWith n i TxResult.gave_up ran o h = ground arith

  attempts-EndsWith :
      (n i : ℕ)
      → let x : TxResult E × ℕ × ℕ = attempts once done_before done_waiting n i in
        EndsWith n i x.0 x.1
  unfolding attempts all_busy is_done_within
  attempts-EndsWith zero i = (refl, refl)
  attempts-EndsWith (suc n) i =
      step (attempts-EndsWith n (suc i)) (done_before i) refl (once i) refl (done_waiting i) refl
    where
      rest : TxResult E × ℕ × ℕ
      rest = attempts once done_before done_waiting n (suc i)

      step :
          EndsWith n (suc i) rest.0 rest.1
          → (b : Bool) → done_before i ≡ b
          → (o : Once E) → once i ≡ o
          → (w : Bool) → done_waiting i ≡ w
          → let x : TxResult E × ℕ × ℕ =
              if b then (TxResult.gave_up, 0, 0) else elim o as (λ _. TxResult E × ℕ × ℕ) [
                | committed ↦ (TxResult.stored, 1, 0)
                | failed e ↦ (TxResult.rejected e, 1, 0)
                | busy ↦
                    if w
                    then (TxResult.gave_up, 1, 0)
                    else (rest.0, suc rest.1, wait_after i + rest.2)
              ] in
            EndsWith (suc n) i x.0 x.1
      step ih true p o q w v = ground (arith, p)
      step ih false p Once.committed q w v =
          (0, refl, refl, subst (λ (j : ℕ). once j ≡ Once.committed) (omega arith) q)
      step ih false p (Once.failed e) q w v =
          (0, refl, refl, subst (λ (j : ℕ). once j ≡ Once.failed e) (omega arith) q)
      step ih false p Once.busy q true v = ground (arith, v)
      step ih false p Once.busy q false v = later-EndsWith n i rest.0 rest.1 q ih

  at_most_three :
      let x : TxResult E × ℕ × ℕ = attempts once done_before done_waiting max_attempts 0 in
      (x.1 ≤ 3) × (x.2 ≤ 70)
  unfolding attempts
  at_most_three = (ground arith, ground arith)

  -- A write transaction is tried at most three times and waits at most 70 ms in all. It is stored, or
  -- rejected with an error, by the first transaction that does not find the database busy; it
  -- is busy only after three that did, and gives up only where the context was done.
  pub attempts_end :
      let x : TxResult E × ℕ × ℕ = attempts once done_before done_waiting max_attempts 0 in
      (x.1 ≤ 3) × (x.2 ≤ 70) × EndsWith max_attempts 0 x.0 x.1
  attempts_end = (at_most_three.0, at_most_three.1, attempts-EndsWith max_attempts 0)
