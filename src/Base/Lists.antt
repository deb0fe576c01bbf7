-- ===== src/Base/Lists.antt =====
-- Lists measured and indexed by native numbers, under the library's names.
use Prim.Native.Nat.{ℕ, zero, suc, ◌+◌, ◌≤◌, min}
use mathlib.Core.Path.{◌≡◌, refl, ap}
use mathlib.Core.List.{List, [], ◌∷◌, ◌++◌}
use mathlib.Core.Option.{Option, none, some}
use native.Mathlib.Omega.{arith}

module _ {ℓ} {A : Type ℓ} where
  abbrev pub length : List A → ℕ
  length [] = 0
  length (x ∷ xs) = suc (length xs)

  abbrev pub get_elem? : List A → ℕ → Option A
  get_elem? [] i = none
  get_elem? (x ∷ xs) zero = some x
  get_elem? (x ∷ xs) (suc i) = get_elem? xs i

  -- A write out of bounds changes nothing.
  abbrev pub set : List A → ℕ → A → List A
  set [] i v = []
  set (x ∷ xs) zero v = v ∷ xs
  set (x ∷ xs) (suc i) v = x ∷ set xs i v

  abbrev pub take : ℕ → List A → List A
  take zero xs = []
  take (suc n) [] = []
  take (suc n) (x ∷ xs) = x ∷ take n xs

  abbrev pub drop : ℕ → List A → List A
  drop zero xs = xs
  drop (suc n) [] = []
  drop (suc n) (x ∷ xs) = drop n xs

  abbrev pub replicate : ℕ → A → List A
  replicate zero a = []
  replicate (suc n) a = a ∷ replicate n a

  pub append-nil : (l : List A) → l ++ [] ≡ l
  append-nil [] = refl
  append-nil (y ∷ l) = ap (λ (k : List A). y ∷ k) (append-nil l)

  pub append_assoc : (l m k : List A) → (l ++ m) ++ k ≡ l ++ (m ++ k)
  append_assoc [] m k = refl
  append_assoc (y ∷ l) m k = ap (λ (j : List A). y ∷ j) (append_assoc l m k)

  pub length-append : (xs ys : List A) → length (xs ++ ys) ≡ length xs + length ys
  length-append [] ys = omega arith
  length-append (x ∷ xs) ys = omega (arith, length-append xs ys)

  pub length-set : (xs : List A) (i : ℕ) (v : A) → length (set xs i v) ≡ length xs
  length-set [] i v = refl
  length-set (x ∷ xs) zero v = refl
  length-set (x ∷ xs) (suc i) v = ap suc (length-set xs i v)

  pub length-take : (n : ℕ) (xs : List A) → length (take n xs) ≡ min n (length xs)
  length-take zero xs = omega arith
  length-take (suc n) [] = omega arith
  length-take (suc n) (x ∷ xs) = omega (arith, length-take n xs)

  pub length-replicate : (n : ℕ) (a : A) → length (replicate n a) ≡ n
  length-replicate zero a = refl
  length-replicate (suc n) a = ap suc (length-replicate n a)

  -- The sum of a measure over a list.
  module _ (w : A → ℕ) where
    unfoldable pub total : List A → ℕ
    total [] = 0
    total (x ∷ xs) = w x + total xs

    pub total-nil : total [] ≡ 0
    unfolding total
    total-nil = refl

    pub total-cons : (x : A) (xs : List A) → total (x ∷ xs) ≡ w x + total xs
    unfolding total
    total-cons x xs = refl

    pub total-append : (xs ys : List A) → total (xs ++ ys) ≡ total xs + total ys
    unfolding total
    total-append [] ys = omega arith
    total-append (x ∷ xs) ys = omega (arith, total-append xs ys)

    pub total-set :
        (xs : List A) (i : ℕ) (x y : A)
        → get_elem? xs i ≡ some x
        → total (set xs i y) + w x ≡ total xs + w y
    unfolding total
    total-set [] i x y h = ground arith
    total-set (z ∷ xs) zero x y h = ground arith
    total-set (z ∷ xs) (suc i) x y h = omega (arith, total-set xs i x y h)

    pub total-get_elem : (xs : List A) (i : ℕ) (x : A) → get_elem? xs i ≡ some x → w x ≤ total xs
    unfolding total
    total-get_elem [] i x h = ground arith
    total-get_elem (z ∷ xs) zero x h = ground arith
    total-get_elem (z ∷ xs) (suc i) x h = omega (arith, total-get_elem xs i x h)
