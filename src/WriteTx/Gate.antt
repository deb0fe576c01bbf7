-- ===== src/WriteTx/Gate.antt =====
-- The lock of the single writer (writerGate of internal/store/write_tx.go): a channel with room for one
-- token. Go parks the senders of a full channel in the order of their arrival and gives the token that
-- is drained to the first of them.
use emby_go.Base.{
  ℕ, Bool, true, false, List, [], ◌∷◌, ◌++◌, Option, none, some, ◌==◌, if◌then◌else◌,
}

-- Who has the token, and who waits.
pub record WriterGate : Type 0 where
  pub holder : Option ℕ
  pub waiting : List ℕ

-- What a caller sees: the lock, an error of its context, or a wait.
pub data Entry : Type 0 where
  locked cancelled parked : Entry

-- The token for the first that waits. One whose context is done hands it back at once.
unfoldable pub hand_over : (ℕ → Bool) → List ℕ → WriterGate
hand_over is_done [] = record { holder = none; waiting = [] }
hand_over is_done (w ∷ l) =
    let rest = hand_over is_done l in
    if is_done w then rest else record { holder = some w; waiting = l }

-- `LockContext` of a caller. `before` is whether its context is done at the call, and `is_done` whether
-- that of a caller is once the token is taken.
unfoldable pub lock_context : ℕ → Bool → (ℕ → Bool) → WriterGate → WriterGate × Entry
unfolding hand_over
lock_context id before is_done g = if before then (g, Entry.cancelled) else elim g.holder [
  | some h ↦ (record g { waiting = g.waiting ++ (id ∷ []) }, Entry.parked)
  | none ↦
      if is_done id
      then (hand_over is_done g.waiting, Entry.cancelled)
      else (record g { holder = some id }, Entry.locked)
]

-- `Lock`: without a context.
unfoldable pub lock : ℕ → WriterGate → WriterGate × Entry
unfolding lock_context
lock id = lock_context id false (λ _. false)

-- `TryLock`
unfoldable pub try_lock : ℕ → WriterGate → WriterGate × Bool
try_lock id g = elim g.holder [ some h ↦ (g, false) | none ↦ (record g { holder = some id }, true) ]

-- `Unlock`; none is the panic.
unfoldable pub unlock : (ℕ → Bool) → WriterGate → Option WriterGate
unfolding hand_over
unlock is_done g = elim g.holder [ none ↦ none | some h ↦ some (hand_over is_done g.waiting) ]

-- The first place of a caller is given up.
unfoldable pub leave : ℕ → List ℕ → List ℕ
leave id [] = []
leave id (w ∷ l) = let rest = leave id l in if w == id then l else w ∷ rest

-- The context of a caller that waits is done.
unfoldable pub abandon : ℕ → WriterGate → WriterGate
unfolding leave
abandon id g = record g { waiting = leave id g.waiting }
