-- ===== src/Cache/Finds.antt =====
-- What a shard of internal/cache/cache.go can show after an operation: nothing but what it had.
use emby_go.Base.{
  ℕ, subst, ◌≡◌, ◌≢◌, sym, ◌⊎◌, inl, inr, List, [], ◌∷◌, none, some, String, string_discrete, ltb,
  length, arith, Bool-cases, Option-cases,
}
use emby_go.Cache.Shard.{
  Entry, Shard, find_entry, remove, drop_last, is_expired, get, insert, delete,
}
use emby_go.Cache.Reads.{
  IsDistinct, find-remove_self, find-remove_ne, remove-IsDistinct, drop_last-IsDistinct,
  find_entry-key,
}

find-drop_last-some :
    (q : String) (l : List Entry) (e : Entry)
    → find_entry q (drop_last l) ≡ some e
    → find_entry q l ≡ some e
unfolding find_entry drop_last
find-drop_last-some q [] e h = h
find-drop_last-some q (x ∷ []) e h = ground arith
find-drop_last-some q (x ∷ y ∷ l) e h = ground (arith, find-drop_last-some q (y ∷ l) e)

pub find-delete :
    (k q : String) (s : Shard) (e : Entry)
    → IsDistinct s.order
    → find_entry q (delete k s).order ≡ some e
    → (q ≢ k) × (find_entry q s.order ≡ some e)
unfolding delete
find-delete k q s e d h = elim (string_discrete k q) [
  | yes p ↦ ground (arith, p, find-remove_self k s.order d)
  | no p ↦ ((λ z. p (sym z)), ground (arith, find-remove_ne k q s.order p))
]

pub find-get :
    (k q : String) (now : ℕ) (s : Shard) (e : Entry)
    → IsDistinct s.order
    → find_entry q (get k now s).0.order ≡ some e
    → find_entry q s.order ≡ some e
unfolding get find_entry
find-get k q now s e d h = elim (Option-cases (find_entry k s.order)) [
  | inl n ↦ ground (arith, n)
  | inr (x, n) ↦ elim (string_discrete k q) [
    | yes p ↦ ground (arith, n, p, find_entry-key k s.order x n, find-remove_self k s.order d)
    | no p ↦ ground (arith, n, p, find_entry-key k s.order x n, find-remove_ne k q s.order p)
  ]
]

pub get-IsDistinct :
    (k : String) (now : ℕ) (s : Shard) → IsDistinct s.order → IsDistinct (get k now s).0.order
unfolding get
get-IsDistinct k now s d = elim (Option-cases (find_entry k s.order)) [
  | inl n ↦
      let same : (get k now s).0.order ≡ s.order = ground (arith, n) in
      subst IsDistinct (sym same) d
  | inr (x, n) ↦ elim (Bool-cases (is_expired x now)) [
    | inl t ↦
        let gone : (get k now s).0.order ≡ remove k s.order = ground (arith, n, t) in
        subst IsDistinct (sym gone) (remove-IsDistinct k s.order d)
    | inr t ↦
        let first : (get k now s).0.order ≡ x ∷ remove k s.order = ground (arith, n, t) in
        let key : x.key ≡ k = find_entry-key k s.order x n in
        subst IsDistinct (sym first)
          (ground (arith, key, find-remove_self k s.order d), remove-IsDistinct k s.order d)
  ]
]

-- The order after an insertion.
insert-cases :
    (x : Entry) (s : Shard)
    → ((insert x s).order ≡ x ∷ remove x.key s.order)
      ⊎ ((find_entry x.key s.order ≡ none)
          × (((insert x s).order ≡ drop_last (x ∷ s.order)) ⊎ ((insert x s).order ≡ x ∷ s.order)))
unfolding insert
insert-cases x s = elim (Option-cases (find_entry x.key s.order)) [
  | inr (f, n) ↦ inl (ground (arith, n))
  | inl n ↦ inr (
    n,
    elim (Bool-cases (ltb s.quota (length (x ∷ s.order)))) [
      | inl b ↦ inl (ground (arith, n, b))
      | inr b ↦ inr (ground (arith, n, b))
    ],
  )
]

find-cons :
    (x : Entry) (q : String) (l : List Entry) (e : Entry)
    → find_entry q (x ∷ l) ≡ some e
    → ((q ≡ x.key) × (e ≡ x)) ⊎ ((q ≢ x.key) × (find_entry q l ≡ some e))
unfolding find_entry
find-cons x q l e h = elim (string_discrete x.key q) [
  | yes p ↦ inl (sym p, ground (arith, p))
  | no p ↦ inr ((λ z. p (sym z)), ground (arith, p))
]

pub find-insert :
    (x : Entry) (q : String) (s : Shard) (e : Entry)
    → find_entry q (insert x s).order ≡ some e
    → ((q ≡ x.key) × (e ≡ x)) ⊎ ((q ≢ x.key) × (find_entry q s.order ≡ some e))
find-insert x q s e h = elim (insert-cases x s) [
  | inl o ↦ elim (find-cons x q (remove x.key s.order) e (ground (arith, o, h))) [
    | inl y ↦ inl y
    | inr (n, y) ↦ inr (n, ground (arith, y, find-remove_ne x.key q s.order (λ z. n (sym z))))
  ]
  | inr (_, inl o) ↦
      find-cons x q s.order e (find-drop_last-some q (x ∷ s.order) e (ground (arith, o, h)))
  | inr (_, inr o) ↦ find-cons x q s.order e (ground (arith, o, h))
]

pub insert-IsDistinct : (x : Entry) (s : Shard) → IsDistinct s.order → IsDistinct (insert x s).order
insert-IsDistinct x s d = elim (insert-cases x s) [
  | inl o ↦
      subst IsDistinct (sym o) (find-remove_self x.key s.order d, remove-IsDistinct x.key s.order d)
  | inr (n, inl o) ↦ subst IsDistinct (sym o) (drop_last-IsDistinct (x ∷ s.order) (n, d))
  | inr (n, inr o) ↦ subst IsDistinct (sym o) (n, d)
]

pub delete-IsDistinct :
    (k : String) (s : Shard) → IsDistinct s.order → IsDistinct (delete k s).order
unfolding delete
delete-IsDistinct k s d = remove-IsDistinct k s.order d
