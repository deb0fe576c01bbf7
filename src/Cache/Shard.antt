-- ===== src/Cache/Shard.antt =====
-- One shard of internal/cache/cache.go. Its list runs from the most recently used entry to the
-- least; its map is the index of that list by key. A time is a count of nanoseconds, with 0 for the
-- zero time. A value is immutable once it is stored, so a copy of it and a view of it are the same.
use emby_go.Base.{
  ℕ, ◌+◌, List, [], ◌∷◌, Bool, not, ◌&&◌, Option, none, some, String, string_discrete, ite, ltb,
  leb, ◌==◌, if◌then◌else◌, length,
}

abbrev pub Bytes : Type 0
Bytes = List ℕ

pub record Entry : Type 0 where
  pub key : String
  pub value : Bytes
  pub expires : ℕ

pub record Shard : Type 0 where
  pub quota : ℕ
  pub order : List Entry

unfoldable pub find_entry : String → List Entry → Option Entry
find_entry k [] = none
find_entry k (e ∷ l) = ite (string_discrete e.key k) (some e) (find_entry k l)

unfoldable pub remove : String → List Entry → List Entry
remove k [] = []
remove k (e ∷ l) = ite (string_discrete e.key k) l (e ∷ remove k l)

unfoldable pub drop_last : List Entry → List Entry
drop_last [] = []
drop_last (e ∷ []) = []
drop_last (e ∷ f ∷ l) = e ∷ drop_last (f ∷ l)

-- `expiry`
unfoldable pub expiry : ℕ → ℕ → ℕ
expiry ttl now = if leb ttl 0 then 0 else now + ttl

-- `!v.expires.IsZero() && time.Now().After(v.expires)`
unfoldable pub is_expired : Entry → ℕ → Bool
is_expired e now = not (e.expires == 0) && ltb e.expires now

-- `Get` and `View` on the key's shard.
unfoldable pub get : String → ℕ → Shard → Shard × Option Bytes
unfolding is_expired
get k now s = elim (find_entry k s.order) [
  | none ↦ (s, none)
  | some e ↦
      if is_expired e now
      then (record s { order = remove k s.order }, none)
      else (record s { order = e ∷ remove k s.order }, some e.value)
]

unfoldable pub insert : Entry → Shard → Shard
insert e s = elim (find_entry e.key s.order) [
  | some _ ↦ record s { order = e ∷ remove e.key s.order }
  | none ↦
      let grown = e ∷ s.order in
      if ltb s.quota (length grown)
      then record s { order = drop_last grown }
      else record s { order = grown }
]

-- `store`, which `Set` calls with a copy of the value and `SetBytes` with the value.
unfoldable pub store : String → Bytes → ℕ → ℕ → Shard → Shard
unfolding insert expiry
store k value ttl now s = insert (record { key = k; value = value; expires = expiry ttl now }) s

unfoldable pub delete : String → Shard → Shard
delete k s = record s { order = remove k s.order }

unfoldable pub clear : Shard → Shard
clear s = record s { order = [] }
