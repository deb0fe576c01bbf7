-- ===== src/Accounts/AdminChanges.antt =====
-- The change of the users by what an administrator does within a request (internal/store/admin_users.go
-- and admin_credentials.go) and by any operation.
use emby_go.Base.{
  ◌||◌, ℕ, ◌+◌, ◌≡◌, refl, sym, Bool, not, ◌&&◌, List, Option, none, some, String, find, ℕ_discrete,
  ◌==◌, if◌then◌else◌, arith, find-put, string_discrete, ltb,
}
use emby_go.Accounts.Rows.{is_free, UserName, UserRow, Db, drop_tokens_of, Res, ok, ◌>>=◌, is_taken}
use emby_go.Accounts.Users.{normalize_user_name, insert_user, delete_user, ensure_another_admin}
use emby_go.Accounts.Sessions.{Proof, delete_access_token, revoke_all}
use emby_go.Accounts.Admin.{
  set_user_libraries, is_nil, AdminUserUpdate, admit, admin_user_tx, all_known,
  insert_with_libraries, set_libraries, admin_create_user, update_name, update_password,
  update_role, update_libraries, update_user, admin_update_user, admin_delete_user,
  admin_revoke_all, checked_name, checked_hash,
}
use emby_go.Accounts.Keys.{
  NewKey, Actor, admin_create_api_key, replace_key, insert_key, rotate_api_key, rotate_for_request,
  delete_key, delete_api_key, admin_delete_api_key,
}
use emby_go.Accounts.System.{Op, perform}
use emby_go.Accounts.Kept.{
  Ensures, Ensures-guard, Ensures-or_error, Ensures-chain, Ensures-then, Ensures-ok, Ensures-always,
  Ensures-weaken, Change, Changes,
}
use emby_go.Accounts.Changes.{
  insert_user-Changes, create_user-Changes, set_user_password-Changes, rename_user-Changes,
  set_user_admin-Changes, delete_user-Changes, revoke-Changes, save_access_token-Changes,
  validate-Changes, insert_key-Changes, replace_key-Changes, delete_key-Changes, ensured,
  role_written,
}

admitted {ℓ κ} :
    {A : Type ℓ} (P : A → Type κ) (actor : ℕ) (proof : Proof) (now : ℕ) (write : Db → Res A)
    (d : Db)
    → Ensures P (write d)
    → Ensures P (admin_user_tx actor proof now write d)
unfolding admin_user_tx
admitted P actor proof now write d h = Ensures-then P (admit actor proof now d) (write d) (λ _. h)

set_user_libraries-Changes :
    (id : ℕ) (libs : List ℕ) (d : Db) → Ensures (Changes d) (set_user_libraries id libs d)
unfolding set_user_libraries
set_user_libraries-Changes id libs d =
    Ensures-guard _
      (is_nil libs || (not (is_free (find ℕ_discrete id d.users)) && all_known d.libraries libs)) _
      _ (λ _. Ensures-ok _ _ Change.same)

insert_with_libraries-Changes :
    (name : UserName) (hash : String) (admin : Bool) (libs : List ℕ) (d : Db)
    → Ensures (λ (p : Db × ℕ). Changes d p.0) (insert_with_libraries name hash admin libs d)
unfolding insert_with_libraries set_libraries
insert_with_libraries-Changes name hash admin libs d =
    Ensures-chain _ _ (insert_user name hash admin d) _ (insert_user-Changes name hash admin d)
      (λ p q.
        Ensures-chain _ (λ (e : Db). Changes d e) (set_libraries p.1 libs p.0) _
          (Ensures-guard _ (all_known p.0.libraries libs) _ _ (λ _. Ensures-ok _ _ q))
          (λ e c. Ensures-ok _ _ c))

admin_create_user-Changes :
    (trim : UserName → UserName) (actor : ℕ) (name : UserName) (hash : Option String) (admin : Bool)
    (libs : List ℕ) (proof : Proof) (now : ℕ) (d : Db)
    → Ensures
        (λ (p : Db × ℕ). Changes d p.0)
        (admin_create_user trim actor name hash admin libs proof now d)
unfolding admin_create_user
admin_create_user-Changes trim actor name hash admin libs proof now d =
    Ensures-or_error _ (normalize_user_name trim name) _ _ (λ n _.
      Ensures-or_error _ hash _ _ (λ h _.
        admitted _ actor proof now (insert_with_libraries n h admin libs) d
          (insert_with_libraries-Changes n h admin libs d)))

-- The role of an account, and that the users changed.
pub record SameRole (d : Db) (id : ℕ) (admin : Bool) (e : Db) : Type 0 where
  pub changed : Changes d e
  pub row : UserRow
  pub at : find ℕ_discrete id e.users ≡ some row
  pub role : row.is_admin ≡ admin

update_name-SameRole :
    (id : ℕ) (name : Option UserName) (row : UserRow) (d : Db)
    → find ℕ_discrete id d.users ≡ some row
    → Ensures (SameRole d id row.is_admin) (update_name id name d)
unfolding update_name
update_name-SameRole id none row d e =
    Ensures-ok _ _ (record { changed = Change.same; row = row; at = e; role = refl })
update_name-SameRole id (some n) row d e =
    Ensures-or_error _ (find ℕ_discrete id d.users) _ _ (λ r f.
      Ensures-guard _ (not (is_taken id n d.users)) _ _ (λ _. Ensures-ok _ _ (record {
        changed = Change.written id _ r f (omega arith) (ground arith);
        row = record r { name = n };
        at = ground (arith, find-put ℕ_discrete id id (record r { name = n }) d.users);
        role = ground arith;
      })))

update_password-SameRole :
    (id : ℕ) (hash : Option String) (row : UserRow) (d : Db)
    → find ℕ_discrete id d.users ≡ some row
    → Ensures (SameRole d id row.is_admin) (update_password id hash d)
unfolding update_password drop_tokens_of
update_password-SameRole id none row d e =
    Ensures-ok _ _ (record { changed = Change.same; row = row; at = e; role = refl })
update_password-SameRole id (some h) row d e =
    Ensures-or_error _ (find ℕ_discrete id d.users) _ _ (λ r f.
      let changed = record r { password_hash = h; auth_generation = r.auth_generation + 1 } in
      Ensures-ok _ _ (record {
        changed = Change.written id _ r f (omega arith) (ground arith);
        row = changed;
        at = ground (arith, find-put ℕ_discrete id id changed d.users);
        role = ground arith;
      }))

update_role-Changes :
    (id : ℕ) (admin : Option Bool) (row : UserRow) (d : Db)
    → find ℕ_discrete id d.users ≡ some row
    → Ensures (Changes d) (update_role id row.is_admin admin d)
unfolding update_role
update_role-Changes id none row d e = Ensures-ok _ _ Change.same
update_role-Changes id (some admin) row d e =
    Ensures-then _ (if row.is_admin && not admin then ensure_another_admin id d else ok tt) _ (λ c.
      Ensures-or_error _ (find ℕ_discrete id d.users) _ _ (λ r f. Ensures-ok _ _ (
        role_written id admin r d f
          (λ a b. ensured (row.is_admin && not admin) id d c (ground arith)))))

update_libraries-Changes :
    (id : ℕ) (ids : Option (List ℕ)) (d : Db) → Ensures (Changes d) (update_libraries id ids d)
unfolding update_libraries set_libraries
update_libraries-Changes id none d = Ensures-ok _ _ Change.same
update_libraries-Changes id (some ids) d =
    Ensures-guard _ (all_known d.libraries ids) _ _ (λ _. Ensures-ok _ _ Change.same)

update_user-Changes :
    (id : ℕ) (name : Option UserName) (hash : Option String) (update : AdminUserUpdate) (d : Db)
    → Ensures (Changes d) (update_user id name hash update d)
unfolding update_user
update_user-Changes id name hash update d =
    Ensures-or_error _ (find ℕ_discrete id d.users) _ _ (λ row e.
      Ensures-chain _ _ (update_name id name d) _ (update_name-SameRole id name row d e) (λ d1 s1.
        Ensures-chain _ _ (update_password id hash d1) _
          (update_password-SameRole id hash s1.row d1 s1.at)
          (λ d2 s2.
            Ensures-chain _ (Changes d2) (update_role id row.is_admin update.is_admin d2) _
              (rw (sym s1.role, sym s2.role)
                (update_role-Changes id update.is_admin s2.row d2 s2.at))
              (λ d3 s3.
                Ensures-weaken _ (Changes d3) (update_libraries id update.library_ids d3)
                  (update_libraries-Changes id update.library_ids d3)
                  (λ d4 s4.
                    Change.chained s1.changed
                      (Change.chained s2.changed (Change.chained s3 s4)))))))

admin_update_user-Changes :
    (trim : UserName → UserName) (actor id : ℕ) (update : AdminUserUpdate) (proof : Proof) (now : ℕ)
    (d : Db)
    → Ensures (Changes d) (admin_update_user trim actor id update proof now d)
unfolding admin_update_user
admin_update_user-Changes trim actor id update proof now d =
    Ensures-chain _ (λ _. Unit {0}) (checked_name trim update.name) _ (Ensures-always _ _ tt)
      (λ name _.
        Ensures-chain _ (λ _. Unit {0}) (checked_hash update.password) _ (Ensures-always _ _ tt)
          (λ hash _.
            admitted _ actor proof now (update_user id name hash update) d
              (update_user-Changes id name hash update d)))

rotate-Changes :
    (a : Actor) (stable : String) (version : ℕ) (new : NewKey) (d : Db)
    → Ensures (Changes d) (rotate_api_key a stable version new d)
unfolding rotate_api_key
rotate-Changes a stable version new d =
    Ensures-guard _ (ltb 0 a.user_id && ltb 0 a.generation && a.is_admin) _ _ (λ _.
      Ensures-or_error _ (find string_discrete stable d.keys) _ _
        (λ _ _. replace_key-Changes a stable version new d))

rotate_for_request-Changes :
    (a : Actor) (proof : Proof) (stable : String) (version : ℕ) (new : NewKey) (now : ℕ) (d : Db)
    → Ensures (Changes d) (rotate_for_request a proof stable version new now d)
unfolding rotate_for_request
rotate_for_request-Changes a proof stable version new now d =
    Ensures-guard _ (a.user_id == proof.user_id && proof.is_session) _ _ (λ _.
      Ensures-guard _ (ltb 0 a.user_id && ltb 0 a.generation && a.is_admin) _ _ (λ _.
        Ensures-or_error _ (find string_discrete stable d.keys) _ _ (λ _ _.
          admitted _ a.user_id proof now (replace_key a stable version new) d
            (replace_key-Changes a stable version new d))))

only_db :
    (r : Res (Db × ℕ)) (d : Db)
    → Ensures (λ (p : Db × ℕ). Changes d p.0) r
    → Ensures (Changes d) (r >>= λ p. ok p.0)
only_db r d h = Ensures-chain _ _ r _ h (λ p q. Ensures-ok _ _ q)

-- Every operation only writes rows in these ways.
pub perform-Changes :
    (trim : UserName → UserName) (o : Op) (d : Db) → Ensures (Changes d) (perform trim o d)
unfolding perform delete_access_token revoke_all admin_delete_user admin_revoke_all
    admin_create_api_key delete_api_key admin_delete_api_key
perform-Changes trim (Op.create name hash admin) d =
    only_db _ d (create_user-Changes trim name hash admin d)
perform-Changes trim (Op.set_password id generation hash) d =
    set_user_password-Changes id generation hash d
perform-Changes trim (Op.rename id name) d = rename_user-Changes trim id name d
perform-Changes trim (Op.set_admin id admin) d = set_user_admin-Changes id admin d
perform-Changes trim (Op.remove id) d = delete_user-Changes id d
perform-Changes trim (Op.revoke id) d = Ensures-ok _ _ (revoke-Changes id d)
perform-Changes trim Op.revoke_every d = Ensures-ok _ _ Change.grown
perform-Changes trim (Op.log_in token id generation expiry) d =
    save_access_token-Changes token id generation expiry d
perform-Changes trim (Op.validate token now ttl) d =
    Ensures-ok _ _ (validate-Changes token now ttl d)
perform-Changes trim (Op.log_out token) d = Ensures-ok _ _ Change.same
perform-Changes trim (Op.give_libraries id libs) d = set_user_libraries-Changes id libs d
perform-Changes trim (Op.admin_create actor name hash admin libs proof now) d =
    only_db _ d (admin_create_user-Changes trim actor name hash admin libs proof now d)
perform-Changes trim (Op.admin_update actor id update proof now) d =
    admin_update_user-Changes trim actor id update proof now d
perform-Changes trim (Op.admin_remove actor id proof now) d =
    admitted _ actor proof now (delete_user id) d (delete_user-Changes id d)
perform-Changes trim (Op.admin_revoke proof now) d = only_db _ d (
    admitted _ proof.user_id proof now (λ (e : Db). ok (revoke_all e)) d
      (Ensures-ok _ _ Change.grown))
perform-Changes trim (Op.add_key stable new name id) d = insert_key-Changes stable new name id d
perform-Changes trim (Op.admin_add_key stable new name proof now) d =
    admitted _ proof.user_id proof now (insert_key stable new name proof.user_id) d
      (insert_key-Changes stable new name proof.user_id d)
perform-Changes trim (Op.rotate a stable version new) d = rotate-Changes a stable version new d
perform-Changes trim (Op.rotate_request a proof stable version new now) d =
    rotate_for_request-Changes a proof stable version new now d
perform-Changes trim (Op.drop_key stable version) d =
    Ensures-or_error _ (find string_discrete stable d.keys) _ _
      (λ _ _. delete_key-Changes stable version d)
perform-Changes trim (Op.admin_drop_key stable version proof now) d =
    Ensures-or_error _ (find string_discrete stable d.keys) _ _ (λ _ _.
      admitted _ proof.user_id proof now (delete_key stable version) d
        (delete_key-Changes stable version d))
