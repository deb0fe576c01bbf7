-- ===== src/WriteTx/Turns.antt =====
-- Who gets the lock of the writer (internal/store/write_tx.go).
use emby_go.Base.{
  ℕ, subst, suc, ◌≤◌, ◌<◌, ◌≡◌, ◌⊎◌, inl, inr, Bool, true, false, not, ◌&&◌, ◌||◌, List, [], ◌∷◌,
  ◌++◌, Option, none, some, ◌==◌, if◌then◌else◌, arith, Bool-cases, Option-cases,
}
use emby_go.WriteTx.Gate.{WriterGate, hand_over, lock_context, try_lock, unlock, leave, abandon}

-- What callers do, in some order. The contexts that are done are those at that moment.
pub data Event : Type 0 where
  enters : ℕ → Bool → (ℕ → Bool) → Event
  tries : ℕ → Event
  leaves : ℕ → Event
  releases : (ℕ → Bool) → Event

-- The lock after an event; a panic leaves it.
unfoldable pub happen : Event → WriterGate → WriterGate
unfolding lock_context try_lock abandon unlock
happen (Event.enters id before is_done) g = (lock_context id before is_done g).0
happen (Event.tries id) g = (try_lock id g).0
happen (Event.leaves id) g = abandon id g
happen (Event.releases is_done) g = elim (unlock is_done g) [ none ↦ g | some h ↦ h ]

-- Whether a caller's context is not done in an event.
unfoldable pub patient : ℕ → Event → Bool
patient id (Event.enters j before is_done) = not (is_done id)
patient id (Event.tries j) = true
patient id (Event.leaves j) = not (j == id)
patient id (Event.releases is_done) = not (is_done id)

unfoldable pub all_patient : ℕ → List Event → Bool
unfolding patient
all_patient id [] = true
all_patient id (v ∷ l) = patient id v && all_patient id l

unfoldable pub count_releases : List Event → ℕ
count_releases [] = 0
count_releases (Event.releases d ∷ l) = suc (count_releases l)
count_releases (Event.enters j b d ∷ l) = count_releases l
count_releases (Event.tries j ∷ l) = count_releases l
count_releases (Event.leaves j ∷ l) = count_releases l

-- The number that wait in front of a caller.
unfoldable pub place : ℕ → List ℕ → Option ℕ
place id [] = none
place id (w ∷ l) =
    let rest = place id l in
    if w == id then some 0 else elim rest [ none ↦ none | some k ↦ some (suc k) ]

abbrev pub holds : ℕ → WriterGate → Bool
holds id g = elim g.holder [ none ↦ false | some h ↦ h == id ]

-- Whether a caller has the lock at some moment.
unfoldable pub is_served : ℕ → List Event → WriterGate → Bool
unfolding happen
is_served id [] g = holds id g
is_served id (v ∷ l) g = holds id g || is_served id l (happen v g)

place-append : (id j k : ℕ) (l : List ℕ) → place id l ≡ some k → place id (l ++ (j ∷ [])) ≡ some k
unfolding place
place-append id j k [] h = ground arith
place-append id j k (w ∷ l) h = elim (Option-cases (place id l)) [
  | inl e ↦ ground (arith, e)
  | inr (m, e) ↦ ground (arith, e, place-append id j m l e)
]

-- One that leaves makes the place of another no worse.
place-leave :
    (id j k : ℕ) (l : List ℕ)
    → place id l ≡ some k
    → (j == id) ≡ false
    → (m : ℕ) × (place id (leave j l) ≡ some m) × (m ≤ k)
unfolding place leave
place-leave id j k [] h n = ground arith
place-leave id j k (w ∷ l) h n = elim (Bool-cases (w == id)) [
  | inl i ↦ (0, ground (arith, i), omega arith)
  | inr i ↦ elim (Option-cases (place id l)) [
    | inl e ↦ ground (arith, i, e)
    | inr (m, e) ↦ elim (Bool-cases (w == j)) [
      | inl q ↦ (m, ground (arith, i, e, q), ground (arith, i, e))
      | inr q ↦
          let (m', f, le) = place-leave id j m l e n in
          (suc m', ground (arith, i, e, q, f), ground (arith, i, e, le))
    ]
  ]
]

-- A caller in the queue gets the token that is handed over, or a better place.
place-hand_over :
    (id k : ℕ) (is_done : ℕ → Bool) (l : List ℕ)
    → place id l ≡ some k
    → is_done id ≡ false
    → (holds id (hand_over is_done l) ≡ true)
      ⊎ ((m : ℕ) × (h : ℕ) × (place id (hand_over is_done l).waiting ≡ some m)
          × ((hand_over is_done l).holder ≡ some h)
          × (m < k))
unfolding place hand_over
place-hand_over id k is_done [] p d = ground arith
place-hand_over id k is_done (w ∷ l) p d = elim (Bool-cases (w == id)) [
  | inl i ↦
      let e : id ≡ w = ground (arith, i) in
      inl (ground (arith, i, subst (λ (x : ℕ). is_done x ≡ false) e d))
  | inr i ↦ elim (Option-cases (place id l)) [
    | inl e ↦ ground (arith, i, e)
    | inr (m, e) ↦ elim (Bool-cases (is_done w)) [
      | inr q ↦ inr (m, w, ground (arith, i, e, q), ground (arith, q), ground (arith, i, e))
      | inl q ↦ elim (place-hand_over id m is_done l e d) [
        | inl z ↦ inl (ground (arith, q, z))
        | inr (m', h, a, b, lt) ↦
            inr (m', h, ground (arith, q, a), ground (arith, q, b), ground (arith, i, e, lt))
      ]
    ]
  ]
]

served_now :
    (id : ℕ) (l : List Event) (g : WriterGate) → holds id g ≡ true → is_served id l g ≡ true
unfolding is_served
served_now id [] g h = h
served_now id (v ∷ l) g h = ground arith

-- A caller that waits, for as long as its context is not done, has the lock after at most as many
-- releases as there are callers in front of it and the one that holds the lock, whoever comes, tries or
-- leaves in between.
pub waits_its_turn :
    (id k h : ℕ) (l : List Event) (g : WriterGate)
    → place id g.waiting ≡ some k
    → g.holder ≡ some h
    → all_patient id l ≡ true
    → k < count_releases l
    → is_served id l g ≡ true
unfolding is_served all_patient count_releases happen patient
waits_its_turn id k h [] g p o a c = ground arith
waits_its_turn id k h (Event.enters j before is_done ∷ l) g p o a c =
    let queued = record g { waiting = g.waiting ++ (j ∷ []) } in
    ground (
      arith,
      o,
      waits_its_turn id k h l g p o (ground arith) c,
      waits_its_turn id k h l queued (place-append id j k g.waiting p) o (ground arith) c,
    )
waits_its_turn id k h (Event.tries j ∷ l) g p o a c =
    ground (arith, o, waits_its_turn id k h l g p o a c)
waits_its_turn id k h (Event.leaves j ∷ l) g p o a c =
    let (m, q, le) = place-leave id j k g.waiting p (ground arith) in
    ground (arith, waits_its_turn id m h l (abandon j g) q o (ground arith) (omega arith))
waits_its_turn id k h (Event.releases is_done ∷ l) g p o a c =
    elim (place-hand_over id k is_done g.waiting p (ground arith)) [
      | inl z ↦ ground (arith, o, served_now id l (hand_over is_done g.waiting) z)
      | inr (m, h', q, r, lt) ↦ ground (
        arith,
        o,
        waits_its_turn id m h' l (hand_over is_done g.waiting) q r (ground arith) (omega arith),
      )
    ]
