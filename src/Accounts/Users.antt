-- ===== src/Accounts/Users.antt =====
-- Accounts (internal/store/users.go): creation, passwords, names, the role and deletion.
use emby_go.Base.{
  ℕ, ◌+◌, Bool, true, false, not, ◌&&◌, ◌||◌, [], ◌∷◌, Option, none, some, String, Table, find, put,
  erase, ℕ_discrete, ◌==◌, if◌then◌else◌, length, ltb,
}
use emby_go.Accounts.Rows.{
  UserName, UserRow, Db, StoreError, Res, ok, ◌>>=◌, ◌>>◌, guard, or_error, without_user,
  drop_tokens_of, drop_keys_of, is_taken,
}

abbrev pub max_user_name_runes : ℕ
max_user_name_runes = 64

unfoldable pub has_control : UserName → Bool
has_control [] = false
has_control (r ∷ l) = (ltb r 0x20 || r == 0x7f) || has_control l

-- `normalizeUserName`; `trim` is `strings.TrimSpace`.
unfoldable pub normalize_user_name : (UserName → UserName) → UserName → Option UserName
unfolding has_control
normalize_user_name trim name =
    let n = trim name in
    if length n == 0 || ltb max_user_name_runes (length n) || has_control n then none else some n

-- The INSERT of a user with a new id; the generation starts at 1.
unfoldable pub insert_user : UserName → String → Bool → Db → Res (Db × ℕ)
unfolding is_taken
insert_user name hash admin d = do
  guard (not (is_taken d.next_user_id name d.users)) StoreError.user_exists
  let row : UserRow = record {
    name = name;
    password_hash = hash;
    is_admin = admin;
    auth_generation = 1;
  }
  ok (
    record d {
      users = put ℕ_discrete d.next_user_id row d.users;
      next_user_id = d.next_user_id + 1;
    },
    d.next_user_id,
  )

-- `CreateUser`, with what bcrypt made of the password.
unfoldable pub create_user :
    (UserName → UserName) → UserName → Option String → Bool → Db → Res (Db × ℕ)
unfolding normalize_user_name insert_user
create_user trim name hash admin d = do
  n ← or_error (normalize_user_name trim name) StoreError.invalid_user_name
  h ← or_error hash StoreError.no_hash
  insert_user n h admin d

-- `lockUserTx`: the row of a user.
abbrev pub lock_user : ℕ → Db → Res UserRow
lock_user id d = or_error (find ℕ_discrete id d.users) StoreError.user_not_found

abbrev pub set_row : ℕ → UserRow → Db → Db
set_row id row d = record d { users = put ℕ_discrete id row d.users }

-- `setUserPassword`: the new hash and generation, and no session is left. `generation` is what the
-- caller saw when it checked the old password, none for an unchecked reset.
unfoldable pub set_user_password : ℕ → Option ℕ → Option String → Db → Res Db
unfolding drop_tokens_of
set_user_password id generation hash d = do
  h ← or_error hash StoreError.no_hash
  row ← or_error (find ℕ_discrete id d.users) (elim generation [
    | none ↦ StoreError.user_not_found
    | some g ↦ StoreError.authentication_changed
  ])
  guard (elim generation [ none ↦ true | some g ↦ row.auth_generation == g ])
      StoreError.authentication_changed
  let changed = record row { password_hash = h; auth_generation = row.auth_generation + 1 }
  ok (drop_tokens_of id (set_row id changed d))

-- `RenameUser`
unfoldable pub rename_user : (UserName → UserName) → ℕ → UserName → Db → Res Db
unfolding normalize_user_name is_taken
rename_user trim id name d = do
  n ← or_error (normalize_user_name trim name) StoreError.invalid_user_name
  row ← lock_user id d
  guard (not (is_taken id n d.users)) StoreError.user_exists
  ok (set_row id (record row { name = n }) d)

-- The COUNT of administrators with another id.
unfoldable pub count_other_admins : ℕ → Table ℕ UserRow → ℕ
count_other_admins id [] = 0
count_other_admins id ((j, r) ∷ t) =
    (if r.is_admin && not (j == id) then 1 else 0) + count_other_admins id t

-- `ensureAnotherAdminTx`
abbrev pub ensure_another_admin : ℕ → Db → Res (Unit {0})
ensure_another_admin id d = guard (not (count_other_admins id d.users == 0)) StoreError.last_admin

-- The row with a role: the generation grows if the role changes.
unfoldable pub with_role : Bool → UserRow → UserRow
with_role admin row = record row {
  auth_generation =
      row.auth_generation
      + (if row.is_admin then (if admin then 0 else 1) else (if admin then 1 else 0));
  is_admin = admin;
}

-- `SetUserAdmin`
unfoldable pub set_user_admin : ℕ → Bool → Db → Res Db
unfolding with_role
set_user_admin id admin d = do
  row ← lock_user id d
  (if row.is_admin && not admin then ensure_another_admin id d else ok tt)
  ok (set_row id (with_role admin row) d)

-- The DELETEs of a user's rows in every table.
unfoldable pub delete_rows : ℕ → Db → Db
unfolding drop_tokens_of drop_keys_of without_user
delete_rows id d =
    let e = drop_keys_of id (drop_tokens_of id d) in
    record e {
      users = erase ℕ_discrete id e.users;
      user_libraries = without_user id e.user_libraries;
      userdata = without_user id e.userdata;
    }

-- `DeleteUser`
unfoldable pub delete_user : ℕ → Db → Res Db
unfolding delete_rows
delete_user id d = do
  guard (not (id == 1)) StoreError.protected_user
  row ← lock_user id d
  (if row.is_admin then ensure_another_admin id d else ok tt)
  ok (delete_rows id d)

-- `RevokeUserAccessTokens`; without the user only the sessions are deleted.
unfoldable pub revoke_user_access_tokens : ℕ → Db → Db
unfolding drop_tokens_of
revoke_user_access_tokens id d = drop_tokens_of id (elim (find ℕ_discrete id d.users) [
  | none ↦ d
  | some row ↦ set_row id (record row { auth_generation = row.auth_generation + 1 }) d
])
