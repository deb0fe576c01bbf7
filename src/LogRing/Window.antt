-- ===== src/LogRing/Window.antt =====
-- The ring (internal/logging/ring.go) is a window on the history of what was written.
use emby_go.Base.{
  append-nil, append_assoc, ℕ, zero, suc, ◌+◌, ◌-◌, ◌%◌, ◌≤◌, ◌<◌, ◌≡◌, refl, sym, ap, subst, ◌∙◌,
  ◌⊎◌, inl, inr, min, true, false, List, [], ◌∷◌, ◌++◌, some, length, get_elem?, set, drop, arith,
  length-append, length-set, length-replicate, Bool-cases, ℕ_discrete,
}
use emby_go.LogRing.Ring.{Ring, LogEntry, ring_of, add, size, place, collect, limit_of, snapshot}
use emby_go.LogRing.Places.{
  next_place, wrap_place, get_elem-set_self, get_elem-set_ne, get_elem-append_left,
  get_elem-append_end, get_elem-drop, drop-length,
}

-- The ring shows the end of the history: below `next` lies what was written last, and from `next` on,
-- once the ring is full, what was written before that.
pub record Window (h : List LogEntry) (r : Ring) : Type 0 where
  pub next_below : r.next < length r.entries
  pub next_le : r.next ≤ length h
  pub recent : (p : ℕ) → p < r.next → get_elem? r.entries p ≡ get_elem? h (length h - r.next + p)
  pub enough : r.full ≡ true → length r.entries ≤ length h
  pub older :
      r.full ≡ true
      → (p : ℕ) → r.next ≤ p
      → p < length r.entries
      → get_elem? r.entries p ≡ get_elem? h (length h - r.next + p - length r.entries)
  pub fresh : r.full ≡ false → r.next ≡ length h

ring_of-Window : (capacity : ℕ) → 1 ≤ capacity → Window [] (ring_of capacity)
unfolding ring_of
ring_of-Window capacity h =
    let blank : LogEntry = record { time = ""; level = ""; message = "" } in
    record {
      next_below = omega (arith, length-replicate capacity blank, h);
      next_le = omega arith;
      recent = λ p l. ground arith;
      enough = λ e. ground arith;
      older = λ e p l m. ground arith;
      fresh = λ e. refl;
    }

-- A write at one place shows the new end of the history there, and the old history elsewhere.
pushed :
    (e : LogEntry) (h l : List LogEntry) (q p i : ℕ)
    → q < length l
    → ((p ≡ q) × (i ≡ length h)) ⊎ (¬ (q ≡ p) × (i < length h) × (get_elem? l p ≡ get_elem? h i))
    → get_elem? (set l q e) p ≡ get_elem? (h ++ (e ∷ [])) i
pushed e h l q p i b (inl (u, v)) =
    ap (get_elem? (set l q e)) u
    ∙ get_elem-set_self l q e b
    ∙ sym (get_elem-append_end h e)
    ∙ ap (get_elem? (h ++ (e ∷ []))) (sym v)
pushed e h l q p i b (inr (u, v, g)) =
    get_elem-set_ne l q p e u ∙ g ∙ sym (get_elem-append_left h (e ∷ []) i v)

module _ (e : LogEntry) (h : List LogEntry) (r : Ring) (w : Window h r) where
  abbrev grown : List LogEntry
  grown = h ++ (e ∷ [])

  length-grown : length grown ≡ length h + 1
  length-grown = length-append h (e ∷ [])

  -- What lies below the next place after the write, which went to `r.next`.
  recent_pushed :
      (p i : ℕ)
      → p ≤ r.next
      → i + r.next ≡ length h + p
      → get_elem? (set r.entries r.next e) p ≡ get_elem? grown i
  recent_pushed p i l g = pushed e h r.entries r.next p i w.next_below (elim (ℕ_discrete p r.next) [
    | yes u ↦ inl (u, omega arith)
    | no u ↦ inr (
      λ v. u (sym v),
      omega (arith, w.next_le, u),
      w.recent p (ground arith) ∙ ap (get_elem? h) (omega (arith, w.next_le)),
    )
  ])

  older_pushed :
      (p i : ℕ)
      → r.full ≡ true
      → r.next < p
      → p < length r.entries
      → i + r.next + length r.entries ≡ length h + p
      → get_elem? (set r.entries r.next e) p ≡ get_elem? grown i
  older_pushed p i f l m g = pushed e h r.entries r.next p i w.next_below (
      inr (
        ground arith,
        omega (arith, w.next_le),
        w.older f p (omega arith) m ∙ ap (get_elem? h) (omega (arith, w.next_le, w.enough f)),
      ))

  still_full : (r.next + 1) % length r.entries ≡ r.next + 1 → (add e r).full ≡ true → r.full ≡ true
  unfolding add
  still_full n f = ground (arith, n)

  not_full : (r.next + 1) % length r.entries ≡ r.next + 1 → (add e r).full ≡ false → r.full ≡ false
  unfolding add
  not_full n f = ground (arith, n)

  add-Window : Window grown (add e r)
  unfolding add
  add-Window =
      let le = length-set r.entries r.next e in
      elim (next_place r.next (length r.entries) w.next_below) [
        | inl (n, l) ↦ record {
          next_below = omega (arith, le, n);
          next_le = omega (arith, length-grown, n, w.next_le);
          recent = λ p m.
              recent_pushed p _ (omega (arith, n)) (omega (arith, length-grown, n, w.next_le));
          enough = λ f. omega (arith, length-grown, le, w.enough (still_full n f));
          older = λ f p m k.
              older_pushed p _ (still_full n f) (omega (arith, n)) (omega (arith, le))
                (omega (arith, length-grown, le, n, w.next_le, w.enough (still_full n f)));
          fresh = λ f. omega (arith, length-grown, n, w.fresh (not_full n f));
        }
        | inr (n, l) ↦ record {
          next_below = omega (arith, le, n, l);
          next_le = omega (arith, length-grown, n);
          recent = λ p m. ground (arith, n);
          enough = λ f. omega (arith, length-grown, le, l, w.next_le);
          older = λ f p m k.
              recent_pushed p _ (omega (arith, le))
                (omega (arith, length-grown, le, n, l, w.next_le));
          fresh = λ f. ground (arith, n);
        }
      ]

-- The ring after the entries of a history, the oldest first.
abbrev pub after : List LogEntry → Ring → Ring
after [] r = r
after (e ∷ es) r = after es (add e r)

after-Window : (es h : List LogEntry) (r : Ring) → Window h r → Window (h ++ es) (after es r)
after-Window [] h r w = subst (λ (l : List LogEntry). Window l r) (sym (append-nil h)) w
after-Window (e ∷ es) h r w =
    subst (λ (l : List LogEntry). Window l (after es (add e r))) (append_assoc h (e ∷ []) es)
      (after-Window es (h ++ (e ∷ [])) (add e r) (add-Window e h r w))

collect_step :
    (idx n : ℕ) (r : Ring) (x : LogEntry) (rest : List LogEntry)
    → get_elem? r.entries (place idx r) ≡ some x
    → collect (suc idx) n r ≡ some rest
    → collect idx (suc n) r ≡ some (x ∷ rest)
unfolding collect
collect_step idx n r x rest a b = ground arith

limit_of-le : (limit size : ℕ) → limit_of limit size ≤ size
unfolding limit_of
limit_of-le limit size = ground arith

length-after : (es : List LogEntry) (r : Ring) → length (after es r).entries ≡ length r.entries
unfolding add
length-after [] r = refl
length-after (e ∷ es) r = length-after es (add e r) ∙ length-set r.entries r.next e

module _ (h : List LogEntry) (r : Ring) (w : Window h r) where
  size_full : r.full ≡ true → size r ≡ length r.entries
  unfolding size
  size_full f = ground arith

  size_fresh : r.full ≡ false → size r ≡ r.next
  unfolding size
  size_fresh f = ground arith

  place_full : (idx : ℕ) → r.full ≡ true → place idx r ≡ (r.next + idx) % length r.entries
  unfolding place
  place_full idx f = ground arith

  place_fresh : (idx : ℕ) → r.full ≡ false → place idx r ≡ idx
  unfolding place
  place_fresh idx f = ground arith

  size-le : size r ≤ length h
  size-le = elim (Bool-cases r.full) [
    | inl f ↦ omega (arith, size_full f, w.enough f)
    | inr f ↦ omega (arith, size_fresh f, w.next_le)
  ]

  -- The ring holds the last entries of the history, by age.
  placed :
      (idx : ℕ)
      → idx < size r
      → get_elem? r.entries (place idx r) ≡ get_elem? h (length h - size r + idx)
  placed idx l = elim (Bool-cases r.full) [
    | inl f ↦
        let sz = size_full f in
        elim (wrap_place r.next idx (length r.entries) w.next_below (omega (arith, sz))) [
          | inl (u, v) ↦
              ap (get_elem? r.entries) (place_full idx f ∙ u)
              ∙ w.older f (r.next + idx) (omega arith) v
              ∙ ap (get_elem? h) (omega (arith, sz, w.next_le, w.enough f))
          | inr (u, v) ↦
              ap (get_elem? r.entries) (place_full idx f ∙ u)
              ∙ w.recent (r.next + idx - length r.entries) (omega (arith, sz, w.next_below))
              ∙ ap (get_elem? h) (omega (arith, sz, w.next_le, w.enough f))
        ]
    | inr f ↦
        let sz = size_fresh f in
        ap (get_elem? r.entries) (place_fresh idx f)
        ∙ w.recent idx (omega (arith, sz))
        ∙ ap (get_elem? h) (omega (arith, sz))
  ]

  size-min : size r ≡ min (length r.entries) (length h)
  size-min = elim (Bool-cases r.full) [
    | inl f ↦ omega (arith, size_full f, w.enough f)
    | inr f ↦ omega (arith, size_fresh f, w.fresh f, w.next_below)
  ]

  collected : (n idx : ℕ) → idx + n ≡ size r → collect idx n r ≡ some (drop (length h - n) h)
  unfolding collect
  collected zero idx e = ap some (sym (ap (λ (k : ℕ). drop k h) (omega arith) ∙ drop-length h))
  collected (suc n) idx e =
      let (x, g, d) = get_elem-drop h (length h - suc n) (omega (arith, size-le)) in
      let at = placed idx (omega arith) ∙ ap (get_elem? h) (omega (arith, size-le)) ∙ g in
      let step : suc (length h - suc n) ≡ length h - n = omega (arith, size-le) in
      let tail = d ∙ ap (λ (k : ℕ). x ∷ drop k h) step in
      collect_step idx n r x (drop (length h - n) h) at (collected n (suc idx) (omega arith))
      ∙ ap some (sym tail)

  shown :
      (limit : ℕ)
      → snapshot limit r
        ≡ some (drop (length h - limit_of limit (min (length r.entries) (length h))) h)
  unfolding snapshot
  shown limit =
      collected (limit_of limit (size r)) _ (omega (arith, limit_of-le limit (size r)))
      ∙ ap (λ (n : ℕ). some (drop (length h - limit_of limit n) h)) size-min

-- A snapshot of a ring of any capacity of at least 1, after any entries were written into it, holds the
-- last of them, the oldest first: as many as are asked for, were written and fit in the ring. No index
-- is out of range.
pub snapshot_last :
    (capacity : ℕ) (es : List LogEntry) (limit : ℕ)
    → 1 ≤ capacity
    → snapshot limit (after es (ring_of capacity))
      ≡ some (drop (length es - limit_of limit (min capacity (length es))) es)
unfolding ring_of
snapshot_last capacity es limit h =
    let r = after es (ring_of capacity) in
    let len : length r.entries ≡ capacity =
      length-after es (ring_of capacity) ∙ length-replicate capacity _ in
    shown es r (after-Window es [] (ring_of capacity) (ring_of-Window capacity h)) limit
    ∙ ap (λ (n : ℕ). some (drop (length es - limit_of limit (min n (length es))) es)) len
