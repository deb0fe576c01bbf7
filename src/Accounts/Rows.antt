-- ===== src/Accounts/Rows.antt =====
-- The tables of accounts, login sessions and API keys (internal/store/users.go and
-- api_key_rotation.go). The texts of creation and update times are left out: nothing reads them.
use emby_go.Base.{
  ℕ, Bool, true, false, not, List, [], ◌∷◌, Option, none, some, String, Table, keep, ℕ_discrete,
  string_discrete, ◌==◌, if◌then◌else◌, ite,
}

-- A user name by its code points.
abbrev pub UserName : Type 0
UserName = List ℕ

pub user_name_discrete : Discrete UserName
user_name_discrete = hlevel ℕ_discrete

-- A row of users, under its id.
pub record UserRow : Type 0 where
  pub name : UserName
  pub password_hash : String
  pub is_admin : Bool
  pub auth_generation : ℕ

-- A row of access_tokens, under the digest of the token; seconds, and none for a session that does not
-- expire.
pub record TokenRow : Type 0 where
  pub user_id : ℕ
  pub auth_generation : ℕ
  pub expires_at : Option ℕ

-- A row of api_keys, under its stable id.
pub record KeyRow : Type 0 where
  pub digest : String
  pub prefix : String
  pub name : String
  pub user_id : ℕ
  pub version : ℕ

-- The tables. An id of a user is never used again: `next_user_id` is what SQLite keeps for
-- AUTOINCREMENT. `user_libraries` and `userdata` are pairs with the user first.
pub record Db : Type 0 where
  pub users : Table ℕ UserRow
  pub next_user_id : ℕ
  pub tokens : Table String TokenRow
  pub keys : Table String KeyRow
  pub libraries : List ℕ
  pub user_libraries : List (ℕ × ℕ)
  pub userdata : List (ℕ × ℕ)

pub data StoreError : Type 0 where
  user_exists user_not_found last_admin protected_user invalid_user_name : StoreError
  authentication_changed generation_stale key_not_found key_version_stale no_rows : StoreError
  no_hash duplicate_key foreign_key : StoreError

-- What a transaction or a read returns.
pub data Res {ℓ} (A : Type ℓ) : Type ℓ where
  ok : A → Res A
  err : StoreError → Res A

infixl 5 ◌>>=◌ ◌>>◌
abbrev pub ◌>>=◌ {ℓ κ} : {A : Type ℓ} {B : Type κ} → Res A → (A → Res B) → Res B
ok a >>= f = f a
err e >>= f = err e

abbrev pub ◌>>◌ {ℓ} : {B : Type ℓ} → Res (Unit {0}) → Res B → Res B
m >> k = m >>= λ _. k

abbrev pub guard : Bool → StoreError → Res (Unit {0})
guard true e = ok tt
guard false e = err e

abbrev pub or_error {ℓ} : {A : Type ℓ} → Option A → StoreError → Res A
or_error none e = err e
or_error (some a) e = ok a

abbrev pub is_free {ℓ} : {A : Type ℓ} → Option A → Bool
is_free none = true
is_free (some a) = false

-- A transaction that fails is rolled back.
unfoldable pub settle : Db → Res Db → Db
settle d (ok e) = e
settle d (err e) = d

-- The pairs of other users.
unfoldable pub without_user : ℕ → List (ℕ × ℕ) → List (ℕ × ℕ)
without_user id [] = []
without_user id ((u, x) ∷ l) =
    let rest = without_user id l in if u == id then rest else (u, x) ∷ rest

unfoldable pub drop_tokens_of : ℕ → Db → Db
drop_tokens_of id d = record d {
  tokens = keep string_discrete (λ (k : String) (t : TokenRow). not (t.user_id == id)) d.tokens;
}

unfoldable pub drop_keys_of : ℕ → Db → Db
drop_keys_of id d = record d {
  keys = keep string_discrete (λ (k : String) (t : KeyRow). not (t.user_id == id)) d.keys;
}

-- The UNIQUE name: whether a row with another id has the name.
unfoldable pub is_taken : ℕ → UserName → Table ℕ UserRow → Bool
is_taken id n [] = false
is_taken id n ((j, r) ∷ t) =
    let rest = is_taken id n t in
    if j == id then rest else ite (user_name_discrete r.name n) true rest
