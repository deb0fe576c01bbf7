-- ===== src/Accounts/Changes.antt =====
-- The change of the users by each operation of internal/store/users.go, admin_users.go,
-- admin_credentials.go and api_key_rotation.go.
use emby_go.Base.{
  ℕ, ◌≤◌, ◌≡◌, inl, inr, Bool, true, false, not, ◌&&◌, Option, none, some, String, find, erase,
  ℕ_discrete, ◌==◌, if◌then◌else◌, arith, Option-cases, string_discrete, ◌||◌, ltb,
}
use emby_go.Accounts.Rows.{
  UserName, UserRow, Db, drop_tokens_of, drop_keys_of, StoreError, ok, err, is_taken, is_free, ◌>>◌,
}
use emby_go.Accounts.Users.{
  normalize_user_name, insert_user, create_user, set_user_password, rename_user, set_user_admin,
  delete_rows, set_row, delete_user, with_role, ensure_another_admin, revoke_user_access_tokens,
  count_other_admins,
}
use emby_go.Accounts.Sessions.{save_access_token, validate_access_token}
use emby_go.Accounts.Keys.{
  NewKey, Actor, insert_key, replace_key, is_current_admin, has_digest, has_other_digest,
  delete_key,
}
use emby_go.Accounts.Kept.{
  Ensures, Ensures-guard, Ensures-or_error, Ensures-then, Ensures-ok, Change, Changes,
}

pub insert_user-Changes :
    (name : UserName) (hash : String) (admin : Bool) (d : Db)
    → Ensures (λ (p : Db × ℕ). Changes d p.0) (insert_user name hash admin d)
unfolding insert_user
insert_user-Changes name hash admin d =
    Ensures-guard _ (not (is_taken d.next_user_id name d.users)) _ _
      (λ _. Ensures-ok _ _ (Change.added _))

pub create_user-Changes :
    (trim : UserName → UserName) (name : UserName) (hash : Option String) (admin : Bool) (d : Db)
    → Ensures (λ (p : Db × ℕ). Changes d p.0) (create_user trim name hash admin d)
unfolding create_user
create_user-Changes trim name hash admin d =
    Ensures-or_error _ (normalize_user_name trim name) _ _
      (λ n _. Ensures-or_error _ hash _ _ (λ h _. insert_user-Changes n h admin d))

pub set_user_password-Changes :
    (id : ℕ) (generation : Option ℕ) (hash : Option String) (d : Db)
    → Ensures (Changes d) (set_user_password id generation hash d)
unfolding set_user_password drop_tokens_of
set_user_password-Changes id generation hash d = Ensures-or_error _ hash _ _ (λ h _.
    Ensures-or_error _ (find ℕ_discrete id d.users) _ _ (λ row e.
      Ensures-guard _ (elim generation [ none ↦ true | some g ↦ row.auth_generation == g ]) _ _
        (λ _. Ensures-ok _ _ (Change.written id _ row e (omega arith) (ground arith)))))

pub rename_user-Changes :
    (trim : UserName → UserName) (id : ℕ) (name : UserName) (d : Db)
    → Ensures (Changes d) (rename_user trim id name d)
unfolding rename_user
rename_user-Changes trim id name d = Ensures-or_error _ (normalize_user_name trim name) _ _ (λ n _.
    Ensures-or_error _ (find ℕ_discrete id d.users) _ _ (λ row e.
      Ensures-guard _ (not (is_taken id n d.users)) _ _
        (λ _. Ensures-ok _ _ (Change.written id _ row e (omega arith) (ground arith)))))

-- The check that another administrator is left.
pub ensured :
    (need : Bool) (id : ℕ) (d : Db)
    → (if need then ensure_another_admin id d else ok tt) ≡ ok tt
    → need ≡ true
    → 1 ≤ count_other_admins id d.users
ensured true id d h _ = ground arith
ensured false id d h n = ground arith

pub role_written :
    (id : ℕ) (admin : Bool) (row : UserRow) (d : Db)
    → find ℕ_discrete id d.users ≡ some row
    → (row.is_admin ≡ true → admin ≡ false → 1 ≤ count_other_admins id d.users)
    → Changes d (set_row id (with_role admin row) d)
unfolding with_role
role_written id admin row d e h = Change.written id _ row e (ground arith) h

pub set_user_admin-Changes :
    (id : ℕ) (admin : Bool) (d : Db) → Ensures (Changes d) (set_user_admin id admin d)
unfolding set_user_admin
set_user_admin-Changes id admin d = Ensures-or_error _ (find ℕ_discrete id d.users) _ _ (λ row e.
    Ensures-then _ (if row.is_admin && not admin then ensure_another_admin id d else ok tt) _ (λ c.
      Ensures-ok _ _ (
        role_written id admin row d e
          (λ a b. ensured (row.is_admin && not admin) id d c (ground arith)))))

-- What `DeleteUser` does once the user is not the first.
pub delete_row-Changes :
    (id : ℕ) (row : UserRow) (d : Db)
    → find ℕ_discrete id d.users ≡ some row
    → Ensures
        (Changes d)
        ((if row.is_admin then ensure_another_admin id d else ok tt) >> ok (delete_rows id d))
unfolding delete_rows drop_tokens_of drop_keys_of
delete_row-Changes id row d e =
    Ensures-then _ (if row.is_admin then ensure_another_admin id d else ok tt) _
      (λ c. Ensures-ok _ _ (Change.removed id row e (λ a b. ensured row.is_admin id d c a)))

pub delete_user-Changes : (id : ℕ) (d : Db) → Ensures (Changes d) (delete_user id d)
unfolding delete_user
delete_user-Changes id d = Ensures-guard _ (not (id == 1)) _ _ (λ _.
    Ensures-or_error _ (find ℕ_discrete id d.users) _ _ (λ row e. delete_row-Changes id row d e))

pub revoke-Changes : (id : ℕ) (d : Db) → Changes d (revoke_user_access_tokens id d)
unfolding revoke_user_access_tokens drop_tokens_of
revoke-Changes id d = elim (Option-cases (find ℕ_discrete id d.users)) [
  | inl e ↦ rw (e) Change.same
  | inr (row, e) ↦ rw (e) (Change.written id _ row e (omega arith) (ground arith))
]

-- What leaves the users alone.
unchanged : (d e : Db) → e.users ≡ d.users → e.next_user_id ≡ d.next_user_id → Changes d e
unchanged d e u n = rw (u, n) Change.same

pub save_access_token-Changes :
    (token : String) (id : ℕ) (generation expires_at : Option ℕ) (d : Db)
    → Ensures (Changes d) (save_access_token token id generation expires_at d)
unfolding save_access_token
save_access_token-Changes token id generation expires_at d =
    Ensures-or_error _ (find ℕ_discrete id d.users) _ _ (λ row _.
      Ensures-guard _ (elim generation [ none ↦ true | some g ↦ row.auth_generation == g ]) _ _
        (λ _.
          Ensures-guard _ (is_free (find string_discrete token d.tokens)) _ _
            (λ _. Ensures-ok _ _ Change.same)))

pub validate-Changes :
    (token : String) (now ttl : ℕ) (d : Db) → Changes d (validate_access_token token now ttl d).0
unfolding validate_access_token
validate-Changes token now ttl d =
    unchanged d (validate_access_token token now ttl d).0 (ground arith) (ground arith)

pub insert_key-Changes :
    (stable : String) (new : NewKey) (name : String) (id : ℕ) (d : Db)
    → Ensures (Changes d) (insert_key stable new name id d)
unfolding insert_key
insert_key-Changes stable new name id d =
    Ensures-guard _ (not (has_digest new.digest d.keys)) _ _ (λ _.
      Ensures-guard _ (is_free (find string_discrete stable d.keys)) _ _
        (λ _. Ensures-ok _ _ Change.same))

pub replace_key-Changes :
    (a : Actor) (stable : String) (version : ℕ) (new : NewKey) (d : Db)
    → Ensures (Changes d) (replace_key a stable version new d)
unfolding replace_key
replace_key-Changes a stable version new d =
    Ensures-or_error _ (find string_discrete stable d.keys) _ _ (λ k _.
      Ensures-guard _ (is_current_admin a d) _ _ (λ _.
        Ensures-guard _ (k.version == version) _ _ (λ _.
          Ensures-guard _ (not (has_other_digest stable new.digest d.keys)) _ _
            (λ _. Ensures-ok _ _ Change.same))))

pub delete_key-Changes :
    (stable : String) (version : ℕ) (d : Db) → Ensures (Changes d) (delete_key stable version d)
unfolding delete_key Ensures
delete_key-Changes stable version d =
    elim (find string_discrete stable d.keys)
      as (λ o. Ensures (Changes d) (elim o [
        | none ↦
            err (if ltb 0 version then StoreError.key_version_stale else StoreError.key_not_found)
        | some k ↦
            if version == 0 || k.version == version
            then ok (record d { keys = erase string_discrete stable d.keys })
            else err StoreError.key_version_stale
      ])) [
        | none ↦ tt
        | some k ↦
            elim (version == 0 || k.version == version)
              as (λ c. Ensures (Changes d) (
                if c
                then ok (record d { keys = erase string_discrete stable d.keys })
                else err StoreError.key_version_stale)) [ true ↦ Change.same | false ↦ tt ]
      ]
