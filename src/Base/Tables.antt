-- ===== src/Base/Tables.antt =====
-- Go's maps as association lists over keys with a decidable equality. Every law is stated by
-- `find`, and needs no assumption on the list.
use Prim.Native.Nat.{◌+◌, ◌≤◌}
use mathlib.Core.Path.{◌≡◌, refl, subst}
use mathlib.Core.Logic.{ite}
use mathlib.Core.Bool.{Bool}
use mathlib.Core.List.{List, [], ◌∷◌}
use mathlib.Core.Option.{Option, none, some}
use native.Mathlib.Omega.{arith}
use emby_go.Base.Tests.{if◌then◌else◌}
use emby_go.Base.Lists.{length}

abbrev pub Table {ℓ} : Type ℓ → Type ℓ → Type ℓ
Table K V = List (K × V)

-- A value that is kept only if it passes.
abbrev pub filter_option {ℓ} : {V : Type ℓ} → (V → Bool) → Option V → Option V
filter_option p none = none
filter_option p (some v) = if p v then some v else none

module _ {ℓ} {K V : Type ℓ} (dec : Discrete K) where
  -- `m[k]`
  unfoldable pub find : K → Table K V → Option V
  find k [] = none
  find k ((j, v) ∷ t) = ite (dec j k) (some v) (find k t)

  -- `m[k] = v`
  unfoldable pub put : K → V → Table K V → Table K V
  put k v [] = (k, v) ∷ []
  put k v ((j, w) ∷ t) = ite (dec j k) ((k, v) ∷ t) ((j, w) ∷ put k v t)

  -- `delete(m, k)`
  unfoldable pub erase : K → Table K V → Table K V
  erase k [] = []
  erase k ((j, w) ∷ t) = let rest = erase k t in ite (dec j k) rest ((j, w) ∷ rest)

  -- `for k, v := range m { if !p(k, v) { delete(m, k) } }`
  unfoldable pub keep : (K → V → Bool) → Table K V → Table K V
  unfolding erase
  keep p [] = []
  keep p ((j, w) ∷ t) = let rest = keep p t in if p j w then (j, w) ∷ rest else erase j rest

  pub find-put :
      (k q : K) (v : V) (t : Table K V) → find q (put k v t) ≡ ite (dec k q) (some v) (find q t)
  unfolding find put
  find-put k q v [] = refl
  find-put k q v ((j, w) ∷ t) = ground (arith, find-put k q v t)

  pub find-erase : (k q : K) (t : Table K V) → find q (erase k t) ≡ ite (dec k q) none (find q t)
  unfolding find erase
  find-erase k q [] = ground arith
  find-erase k q ((j, w) ∷ t) = ground (arith, find-erase k q t)

  pub find-keep :
      (p : K → V → Bool) (q : K) (t : Table K V)
      → find q (keep p t) ≡ filter_option (p q) (find q t)
  unfolding find keep
  find-keep p q [] = refl
  find-keep p q ((j, w) ∷ t) = ground (arith, find-keep p q t, find-erase j q (keep p t))

  pub length-put_old :
      (k : K) (v w : V) (t : Table K V) → find k t ≡ some w → length (put k v t) ≡ length t
  unfolding find put
  length-put_old k v w [] h = ground arith
  length-put_old k v w ((j, x) ∷ t) h = ground (arith, length-put_old k v w t)

  pub length-put-le : (k : K) (v : V) (t : Table K V) → length (put k v t) ≤ length t + 1
  unfolding put
  length-put-le k v [] = omega arith
  length-put-le k v ((j, x) ∷ t) = ground (arith, length-put-le k v t)

  pub length-erase-le : (k : K) (t : Table K V) → length (erase k t) ≤ length t
  unfolding erase
  length-erase-le k [] = omega arith
  length-erase-le k ((j, x) ∷ t) = ground (arith, length-erase-le k t)

  pub length-keep-le : (p : K → V → Bool) (t : Table K V) → length (keep p t) ≤ length t
  unfolding keep
  length-keep-le p [] = omega arith
  length-keep-le p ((j, x) ∷ t) = ground (arith, length-keep-le p t, length-erase-le j (keep p t))

  -- Every key has one entry.
  abbrev pub IsKeyed : Table K V → Type ℓ
  IsKeyed [] = Unit {ℓ}
  IsKeyed ((j, w) ∷ t) = (find j t ≡ none) × IsKeyed t

  pub put-IsKeyed : (k : K) (v : V) (t : Table K V) → IsKeyed t → IsKeyed (put k v t)
  unfolding put find
  put-IsKeyed k v [] h = (refl, tt)
  put-IsKeyed k v ((j, w) ∷ t) (f, h) =
      elim (dec j k) as (λ x. IsKeyed (ite x ((k, v) ∷ t) ((j, w) ∷ put k v t))) [
        | yes e ↦ (subst (λ (i : K). find i t ≡ none) e f, h)
        | no e ↦ (ground (arith, find-put k j v t), put-IsKeyed k v t h)
      ]

  pub erase-IsKeyed : (k : K) (t : Table K V) → IsKeyed t → IsKeyed (erase k t)
  unfolding erase find
  erase-IsKeyed k [] h = tt
  erase-IsKeyed k ((j, w) ∷ t) (f, h) =
      elim (dec j k) as (λ x. IsKeyed (ite x (erase k t) ((j, w) ∷ erase k t))) [
        | yes e ↦ erase-IsKeyed k t h
        | no e ↦ (ground (arith, find-erase k j t), erase-IsKeyed k t h)
      ]
