-- ===== src/LogRing/Places.antt =====
-- Places of a list that is written and read around its end, for the ring of internal/logging/ring.go.
use native.Mathlib.Nat.{mod-eq_of_lt, mod_self, add-mod_right}
use emby_go.Base.{
  ℕ, zero, suc, ◌+◌, ◌-◌, ◌%◌, ◌≤◌, ◌<◌, ◌≡◌, refl, ap, ◌∙◌, ◌⊎◌, inl, inr, List, [], ◌∷◌, ◌++◌,
  some, length, get_elem?, set, drop, arith, dec_lt,
}

-- The step to the next place of a ring.
pub next_place :
    (n c : ℕ) → n < c → (((n + 1) % c ≡ n + 1) × (n + 1 < c)) ⊎ (((n + 1) % c ≡ 0) × (n + 1 ≡ c))
next_place n c h = elim (dec_lt (n + 1) c) [
  | yes l ↦ inl (mod-eq_of_lt l, l)
  | no g ↦ let e : n + 1 ≡ c = ground arith in inr (ap (λ (x : ℕ). x % c) e ∙ mod_self c, e)
]

-- A place that wraps around at most once.
pub wrap_place :
    (n i c : ℕ)
    → n < c
    → i < c
    → (((n + i) % c ≡ n + i) × (n + i < c)) ⊎ (((n + i) % c ≡ n + i - c) × (c ≤ n + i))
wrap_place n i c h g = elim (dec_lt (n + i) c) [
  | yes l ↦ inl (mod-eq_of_lt l, l)
  | no k ↦
      let e : n + i ≡ (n + i - c) + c = ground arith in
      let small : n + i - c < c = omega arith in
      inr (ap (λ (x : ℕ). x % c) e ∙ add-mod_right (n + i - c) c ∙ mod-eq_of_lt small, ground arith)
]

module _ {ℓ} {A : Type ℓ} where
  pub get_elem-set_self :
      (l : List A) (i : ℕ) (x : A) → i < length l → get_elem? (set l i x) i ≡ some x
  get_elem-set_self [] i x h = ground arith
  get_elem-set_self (y ∷ l) zero x h = refl
  get_elem-set_self (y ∷ l) (suc i) x h = get_elem-set_self l i x (omega arith)

  pub get_elem-set_ne :
      (l : List A) (i j : ℕ) (x : A) → ¬ (i ≡ j) → get_elem? (set l i x) j ≡ get_elem? l j
  get_elem-set_ne [] i j x h = refl
  get_elem-set_ne (y ∷ l) zero zero x h = ground arith
  get_elem-set_ne (y ∷ l) zero (suc j) x h = refl
  get_elem-set_ne (y ∷ l) (suc i) zero x h = refl
  get_elem-set_ne (y ∷ l) (suc i) (suc j) x h = get_elem-set_ne l i j x (ground arith)

  pub get_elem-append_left :
      (l m : List A) (i : ℕ) → i < length l → get_elem? (l ++ m) i ≡ get_elem? l i
  get_elem-append_left [] m i h = ground arith
  get_elem-append_left (y ∷ l) m zero h = refl
  get_elem-append_left (y ∷ l) m (suc i) h = get_elem-append_left l m i (omega arith)

  pub get_elem-append_end : (l : List A) (x : A) → get_elem? (l ++ (x ∷ [])) (length l) ≡ some x
  get_elem-append_end [] x = refl
  get_elem-append_end (y ∷ l) x = get_elem-append_end l x

  pub get_elem-drop :
      (l : List A) (i : ℕ)
      → i < length l
      → (x : A) × (get_elem? l i ≡ some x) × (drop i l ≡ x ∷ drop (suc i) l)
  get_elem-drop [] i h = ground arith
  get_elem-drop (y ∷ l) zero h = (y, refl, refl)
  get_elem-drop (y ∷ l) (suc i) h = let (x, g, d) = get_elem-drop l i (omega arith) in (x, g, d)

  pub drop-length : (l : List A) → drop (length l) l ≡ []
  drop-length [] = refl
  drop-length (y ∷ l) = drop-length l
