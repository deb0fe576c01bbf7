-- ===== src/Accounts/Admin.antt =====
-- What an administrator does within a request (internal/store/admin_users.go and admin_credentials.go,
-- and user_libraries.go for the libraries of an account):
-- the role, the generation and the credential are checked again in the transaction that writes.
use emby_go.Base.{
  ℕ, ◌+◌, Bool, true, false, not, ◌&&◌, ◌||◌, List, [], ◌∷◌, ◌++◌, Option, none, some, String, find,
  ℕ_discrete, string_discrete, ◌==◌, if◌then◌else◌, ite,
}
use emby_go.Accounts.Rows.{
  is_free, UserName, Db, StoreError, Res, ok, ◌>>=◌, ◌>>◌, guard, or_error, without_user,
  drop_tokens_of, is_taken,
}
use emby_go.Accounts.Users.{
  normalize_user_name, insert_user, lock_user, set_row, ensure_another_admin, with_role,
  delete_user,
}
use emby_go.Accounts.Sessions.{Proof, has_session, has_key, revoke_all}

-- The checks of `adminUserTxContext`.
unfoldable pub admit : ℕ → Proof → ℕ → Db → Res (Unit {0})
unfolding has_session has_key
admit actor proof now d = do
  row ← or_error (find ℕ_discrete actor d.users) StoreError.generation_stale
  guard row.is_admin StoreError.generation_stale
  guard
      (proof.user_id == actor
        && ite (string_discrete proof.credential "") false true
        && proof.generation == row.auth_generation)
      StoreError.generation_stale
  guard
      (if proof.is_session
        then has_session proof.credential actor row.auth_generation now d
        else has_key proof.credential actor d.keys)
      StoreError.generation_stale

-- `adminUserTx`: the checks, then the writes, in one transaction.
unfoldable pub admin_user_tx {ℓ} : {A : Type ℓ} → ℕ → Proof → ℕ → (Db → Res A) → Db → Res A
admin_user_tx actor proof now write d = do admit actor proof now d; write d

unfoldable pub mem : ℕ → List ℕ → Bool
mem id [] = false
mem id (j ∷ l) = j == id || mem id l

unfoldable pub all_known : List ℕ → List ℕ → Bool
unfolding mem
all_known known [] = true
all_known known (id ∷ ids) = mem id known && all_known known ids

unfoldable pub has_pair : ℕ → ℕ → List (ℕ × ℕ) → Bool
has_pair u x [] = false
has_pair u x ((v, y) ∷ l) = (v == u && y == x) || has_pair u x l

-- INSERT OR IGNORE for each library.
unfoldable pub insert_pairs : ℕ → List ℕ → List (ℕ × ℕ) → List (ℕ × ℕ)
unfolding has_pair
insert_pairs u [] pairs = pairs
insert_pairs u (x ∷ l) pairs =
    insert_pairs u l (if has_pair u x pairs then pairs else pairs ++ ((u, x) ∷ []))

unfoldable pub is_nil : List ℕ → Bool
is_nil [] = true
is_nil (x ∷ l) = false

-- `setAdminUserLibrariesTx`
unfoldable pub set_libraries : ℕ → List ℕ → Db → Res Db
unfolding all_known insert_pairs
set_libraries id ids d = do
  guard (all_known d.libraries ids) StoreError.no_rows
  ok (record d { user_libraries = insert_pairs id ids (without_user id d.user_libraries) })

-- `SetUserLibraries` (internal/store/user_libraries.go): the foreign keys of a row that is inserted
-- want the account and the library.
unfoldable pub set_user_libraries : ℕ → List ℕ → Db → Res Db
unfolding all_known insert_pairs
set_user_libraries id ids d = do
  guard (is_nil ids || (not (is_free (find ℕ_discrete id d.users)) && all_known d.libraries ids))
      StoreError.foreign_key
  ok (record d { user_libraries = insert_pairs id ids (without_user id d.user_libraries) })

-- The writes of `AdminCreateUser`.
unfoldable pub insert_with_libraries : UserName → String → Bool → List ℕ → Db → Res (Db × ℕ)
unfolding insert_user set_libraries
insert_with_libraries name hash admin libs d = do
  inserted ← insert_user name hash admin d
  changed ← set_libraries inserted.1 libs inserted.0
  ok (changed, inserted.1)

-- `AdminCreateUser`
unfoldable pub admin_create_user :
    (UserName → UserName)
    → ℕ
    → UserName
    → Option String
    → Bool
    → List ℕ
    → Proof
    → ℕ
    → Db
    → Res (Db × ℕ)
unfolding normalize_user_name insert_with_libraries admin_user_tx admit
admin_create_user trim actor name hash admin libs proof now d = do
  n ← or_error (normalize_user_name trim name) StoreError.invalid_user_name
  h ← or_error hash StoreError.no_hash
  admin_user_tx actor proof now (insert_with_libraries n h admin libs) d

-- `AdminUserUpdate`: a field that is none stays. The password is what bcrypt made of it.
pub record AdminUserUpdate : Type 0 where
  pub name : Option UserName
  pub password : Option (Option String)
  pub is_admin : Option Bool
  pub library_ids : Option (List ℕ)

-- The normal form of an optional name; an optional value whose check fails is an error.
unfoldable pub checked_name : (UserName → UserName) → Option UserName → Res (Option UserName)
unfolding normalize_user_name
checked_name trim none = ok none
checked_name trim (some name) = do
  n ← or_error (normalize_user_name trim name) StoreError.invalid_user_name
  ok (some n)

unfoldable pub checked_hash : Option (Option String) → Res (Option String)
checked_hash none = ok none
checked_hash (some hash) = do h ← or_error hash StoreError.no_hash; ok (some h)

-- The statements of an update, one for each field that is given.
unfoldable pub update_name : ℕ → Option UserName → Db → Res Db
unfolding is_taken
update_name id none d = ok d
update_name id (some n) d = do
  row ← lock_user id d
  guard (not (is_taken id n d.users)) StoreError.user_exists
  ok (set_row id (record row { name = n }) d)

unfoldable pub update_password : ℕ → Option String → Db → Res Db
unfolding drop_tokens_of
update_password id none d = ok d
update_password id (some h) d = do
  row ← lock_user id d
  let changed = record row { password_hash = h; auth_generation = row.auth_generation + 1 }
  ok (drop_tokens_of id (set_row id changed d))

-- `current` is the role when the transaction began.
unfoldable pub update_role : ℕ → Bool → Option Bool → Db → Res Db
unfolding with_role
update_role id current none d = ok d
update_role id current (some admin) d = do
  (if current && not admin then ensure_another_admin id d else ok tt)
  row ← lock_user id d
  ok (set_row id (with_role admin row) d)

unfoldable pub update_libraries : ℕ → Option (List ℕ) → Db → Res Db
unfolding set_libraries
update_libraries id none d = ok d
update_libraries id (some ids) d = set_libraries id ids d

unfoldable pub update_user : ℕ → Option UserName → Option String → AdminUserUpdate → Db → Res Db
update_user id name hash update d = do
  row ← lock_user id d
  d1 ← update_name id name d
  d2 ← update_password id hash d1
  d3 ← update_role id row.is_admin update.is_admin d2
  update_libraries id update.library_ids d3

-- `AdminUpdateUser`
unfoldable pub admin_update_user :
    (UserName → UserName) → ℕ → ℕ → AdminUserUpdate → Proof → ℕ → Db → Res Db
admin_update_user trim actor id update proof now d = do
  name ← checked_name trim update.name
  hash ← checked_hash update.password
  admin_user_tx actor proof now (update_user id name hash update) d

-- `AdminDeleteUser`
unfoldable pub admin_delete_user : ℕ → ℕ → Proof → ℕ → Db → Res Db
unfolding admin_user_tx delete_user
admin_delete_user actor id proof now = admin_user_tx actor proof now (delete_user id)

-- `AdminRevokeAllAccessTokens`
unfoldable pub admin_revoke_all : Proof → ℕ → Db → Res (Db × ℕ)
unfolding admin_user_tx
admin_revoke_all proof now = admin_user_tx proof.user_id proof now (λ (d : Db). ok (revoke_all d))
