-- ===== src/Cache/Reads.antt =====
-- What can be read from a shard of internal/cache/cache.go after a write.
use emby_go.Base.{
  ℕ, suc, ◌+◌, ◌≤◌, ◌<◌, ◌≡◌, ◌≢◌, refl, ap, sym, ◌∙◌, inl, inr, List, [], ◌∷◌, Option, none, some,
  String, string_discrete, ◌||◌, ltb, leb, if◌then◌else◌, length, arith, Option-cases, Bool-cases,
  if_pos, if_neg,
}
use emby_go.Cache.Shard.{
  Bytes, Shard, Entry, find_entry, remove, drop_last, expiry, is_expired, get, insert, store,
}

-- No key stands twice.
abbrev pub IsDistinct : List Entry → Type 0
IsDistinct [] = Unit {0}
IsDistinct (e ∷ l) = (find_entry e.key l ≡ none) × IsDistinct l

-- The key that was not used for the longest time.
unfoldable pub last_key : List Entry → Option String
last_key [] = none
last_key (e ∷ []) = some e.key
last_key (e ∷ f ∷ l) = last_key (f ∷ l)

pub find-remove_ne :
    (k q : String) (l : List Entry) → k ≢ q → find_entry q (remove k l) ≡ find_entry q l
unfolding find_entry remove
find-remove_ne k q [] ne = refl
find-remove_ne k q (e ∷ l) ne = ground (arith, find-remove_ne k q l ne)

pub find-remove_self :
    (k : String) (l : List Entry) → IsDistinct l → find_entry k (remove k l) ≡ none
unfolding find_entry remove
find-remove_self k [] d = refl
find-remove_self k (e ∷ l) d = ground (arith, find-remove_self k l d.1)

find-remove-none :
    (k q : String) (l : List Entry) → find_entry q l ≡ none → find_entry q (remove k l) ≡ none
unfolding find_entry remove
find-remove-none k q [] h = refl
find-remove-none k q (e ∷ l) h = ground (arith, find-remove-none k q l)

pub remove-IsDistinct : (k : String) (l : List Entry) → IsDistinct l → IsDistinct (remove k l)
unfolding remove
remove-IsDistinct k [] d = tt
remove-IsDistinct k (e ∷ l) d =
    ground (arith, remove-IsDistinct k l d.1, find-remove-none k e.key l d.0)

find-drop_last-none :
    (q : String) (l : List Entry) → find_entry q l ≡ none → find_entry q (drop_last l) ≡ none
unfolding find_entry drop_last
find-drop_last-none q [] h = refl
find-drop_last-none q (e ∷ []) h = refl
find-drop_last-none q (e ∷ f ∷ l) h = ground (arith, find-drop_last-none q (f ∷ l))

pub drop_last-IsDistinct : (l : List Entry) → IsDistinct l → IsDistinct (drop_last l)
unfolding drop_last
drop_last-IsDistinct [] d = tt
drop_last-IsDistinct (e ∷ []) d = tt
drop_last-IsDistinct (e ∷ f ∷ l) d =
    (find-drop_last-none e.key (f ∷ l) d.0, drop_last-IsDistinct (f ∷ l) d.1)

-- Dropping the last entry hides its key, and no other.
find-drop_last :
    (q : String) (l : List Entry)
    → last_key l ≢ some q
    → find_entry q (drop_last l) ≡ find_entry q l
unfolding find_entry drop_last last_key
find-drop_last q [] ne = refl
find-drop_last q (e ∷ []) ne = elim (string_discrete e.key q) [
  | yes h ↦ absurd (ne (ap some h))
  | no n ↦ sym (if_neg (string_discrete e.key q) n _ _)
]
find-drop_last q (e ∷ f ∷ l) ne = ground (arith, find-drop_last q (f ∷ l) ne)

pub length-drop_last : (e : Entry) (l : List Entry) → length (drop_last (e ∷ l)) ≡ length l
unfolding drop_last
length-drop_last e [] = refl
length-drop_last e (f ∷ l) = ap suc (length-drop_last f l)

pub length-remove-some :
    (k : String) (l : List Entry) (e : Entry)
    → find_entry k l ≡ some e
    → length (remove k l) + 1 ≡ length l
unfolding find_entry remove
length-remove-some k [] e h = ground arith
length-remove-some k (f ∷ l) e h = ground (arith, length-remove-some k l e)

pub length-remove-le : (k : String) (l : List Entry) → length (remove k l) ≤ length l
unfolding remove
length-remove-le k [] = omega arith
length-remove-le k (f ∷ l) = ground (arith, length-remove-le k l)

pub find_entry-key : (k : String) (l : List Entry) (e : Entry) → find_entry k l ≡ some e → e.key ≡ k
unfolding find_entry
find_entry-key k [] e h = ground arith
find_entry-key k (f ∷ l) e h = ground (arith, find_entry-key k l e)

-- What a shard shows to its clients at a time: the values that have not expired.
unfoldable pub visible : String → ℕ → Shard → Option Bytes
visible k now s = (get k now s).1

-- The key that a write takes out: the last one, if the key is new and the shard is full.
unfoldable pub victim : String → Shard → Option String
victim k s = elim (find_entry k s.order) [
  | some _ ↦ none
  | none ↦ if ltb s.quota (suc (length s.order)) then last_key s.order else none
]

-- The value of an entry that has not expired.
abbrev alive : ℕ → Option Entry → Option Bytes
alive now none = none
alive now (some e) = if is_expired e now then none else some e.value

visible-alive :
    (k : String) (now : ℕ) (s : Shard) → visible k now s ≡ alive now (find_entry k s.order)
unfolding visible get
visible-alive k now s = ground arith

find-grown_self :
    (e : Entry) (l : List Entry) (quota : ℕ)
    → 0 < quota
    → quota < suc (length l)
    → find_entry e.key (drop_last (e ∷ l)) ≡ some e
unfolding find_entry drop_last
find-grown_self e [] quota pos full = absurd (omega arith)
find-grown_self e (f ∷ l) quota pos full = if_pos (string_discrete e.key e.key) refl _ _

find-insert_self :
    (e : Entry) (s : Shard) → 0 < s.quota → find_entry e.key (insert e s).order ≡ some e
unfolding insert find_entry
find-insert_self e s room = ground (arith, find-grown_self e s.order s.quota)

last-grown :
    (e : Entry) (l : List Entry) (quota : ℕ) (q : String)
    → 0 < quota
    → quota < suc (length l)
    → last_key l ≢ some q
    → last_key (e ∷ l) ≢ some q
unfolding last_key
last-grown e [] quota q pos full ne = absurd (omega arith)
last-grown e (f ∷ l) quota q pos full ne = ne

find_cons_ne :
    (e : Entry) (l : List Entry) (q : String) → e.key ≢ q → find_entry q (e ∷ l) ≡ find_entry q l
unfolding find_entry
find_cons_ne e l q ne = if_neg (string_discrete e.key q) ne _ _

find-insert_ne :
    (e : Entry) (s : Shard) (q : String)
    → 0 < s.quota
    → e.key ≢ q
    → victim e.key s ≢ some q
    → find_entry q (insert e s).order ≡ find_entry q s.order
unfolding insert victim
find-insert_ne e s q room ne kept = elim (Option-cases (find_entry e.key s.order)) [
  | inr (f, h) ↦
      rw (h, insert)
        (find_cons_ne e (remove e.key s.order) q ne ∙ find-remove_ne e.key q s.order ne)
  | inl h ↦ elim (Bool-cases (ltb s.quota (suc (length s.order)))) [
    | inl full ↦
        let last : last_key s.order ≢ some q = rw (h, full, victim) at kept in
        rw (h, full, insert)
          (find-drop_last q (e ∷ s.order) (last-grown e s.order s.quota q room (ground arith) last)
            ∙ find_cons_ne e s.order q ne)
    | inr free ↦ rw (h, free, insert) (find_cons_ne e s.order q ne)
  ]
]

module _ (k : String) (value : Bytes) (ttl now : ℕ) (s : Shard) (room : 0 < s.quota) where
  expiry-alive :
      (later : ℕ)
      → alive later (some (record { key = k; value = value; expires = expiry ttl now }))
        ≡ (if leb ttl 0 || leb later (now + ttl) then some value else none)
  unfolding is_expired expiry
  expiry-alive later = ground arith

  -- A written value is read back until its lifetime is over: for good if it has none, and else as
  -- long as no more than `ttl` has passed.
  pub visible-store_self :
      (later : ℕ)
      → visible k later (store k value ttl now s)
        ≡ (if leb ttl 0 || leb later (now + ttl) then some value else none)
  unfolding store
  visible-store_self later =
      let e : Entry = record { key = k; value = value; expires = expiry ttl now } in
      visible-alive k later (store k value ttl now s)
      ∙ ap (alive later) (find-insert_self e s room)
      ∙ expiry-alive later

  -- A write changes what is read under another key only for the key that it takes out, which is the
  -- one unused for the longest time.
  pub visible-store_ne :
      (q : String) (later : ℕ)
      → k ≢ q
      → victim k s ≢ some q
      → visible q later (store k value ttl now s) ≡ visible q later s
  unfolding store
  visible-store_ne q later ne kept =
      let e : Entry = record { key = k; value = value; expires = expiry ttl now } in
      visible-alive q later (store k value ttl now s)
      ∙ ap (alive later) (find-insert_ne e s q room ne kept)
      ∙ sym (visible-alive q later s)
