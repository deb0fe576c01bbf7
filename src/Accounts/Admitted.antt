-- ===== src/Accounts/Admitted.antt =====
-- Who may do what an administrator does (internal/store/admin_users.go, admin_credentials.go and
-- api_key_rotation.go).
use emby_go.Base.{
  ℕ, subst, ◌≡◌, Bool, true, ◌&&◌, List, Option, none, some, String, find, ℕ_discrete,
  string_discrete, ◌==◌, if◌then◌else◌, ltb, arith, inl, inr, Option-cases,
}
use emby_go.Accounts.Rows.{UserName, UserRow, Db, Res, ok, ◌>>=◌}
use emby_go.Accounts.Users.{normalize_user_name, delete_user}
use emby_go.Accounts.Sessions.{Proof, revoke_all, has_session, has_key}
use emby_go.Accounts.Admin.{
  AdminUserUpdate, insert_with_libraries, update_user, admit, admin_user_tx, admin_create_user,
  admin_update_user, admin_delete_user, admin_revoke_all, checked_name, checked_hash,
}
use emby_go.Accounts.Keys.{
  NewKey, Actor, insert_key, replace_key, delete_key, admin_create_api_key, rotate_for_request,
  admin_delete_api_key,
}
use emby_go.Accounts.Kept.{
  Ensures, Ensures-ok, Ensures-always, Ensures-guard, Ensures-or_error, Ensures-then, Ensures-chain,
}
use emby_go.Accounts.System.{Op, perform}

-- The account that an administrator's operation is done by, what its request carries, and the time.
unfoldable pub request_of : Op → Option (ℕ × Proof × ℕ)
request_of (Op.create name hash admin) = none
request_of (Op.set_password id generation hash) = none
request_of (Op.rename id name) = none
request_of (Op.set_admin id admin) = none
request_of (Op.remove id) = none
request_of (Op.revoke id) = none
request_of Op.revoke_every = none
request_of (Op.log_in token id generation expiry) = none
request_of (Op.validate token now ttl) = none
request_of (Op.log_out token) = none
request_of (Op.give_libraries id libs) = none
request_of (Op.admin_create actor name hash admin libs proof now) = some (actor, proof, now)
request_of (Op.admin_update actor id update proof now) = some (actor, proof, now)
request_of (Op.admin_remove actor id proof now) = some (actor, proof, now)
request_of (Op.admin_revoke proof now) = some (proof.user_id, proof, now)
request_of (Op.add_key stable new name id) = none
request_of (Op.admin_add_key stable new name proof now) = some (proof.user_id, proof, now)
request_of (Op.rotate a stable version new) = none
request_of (Op.rotate_request a proof stable version new now) = some (a.user_id, proof, now)
request_of (Op.drop_key stable version) = none
request_of (Op.admin_drop_key stable version proof now) = some (proof.user_id, proof, now)

-- An administrator of the tables, with a request of its present generation whose credential is live.
pub record IsAdmitted (actor : ℕ) (proof : Proof) (now : ℕ) (d : Db) : Type 0 where
  pub row : UserRow
  pub found : find ℕ_discrete actor d.users ≡ some row
  pub is_admin : row.is_admin ≡ true
  pub own : proof.user_id ≡ actor
  pub current : proof.generation ≡ row.auth_generation
  pub live :
      (if proof.is_session
        then has_session proof.credential actor row.auth_generation now d
        else has_key proof.credential actor d.keys)
      ≡ true

admit-IsAdmitted :
    (actor : ℕ) (proof : Proof) (now : ℕ) (d : Db)
    → admit actor proof now d ≡ ok tt
    → IsAdmitted actor proof now d
unfolding admit
admit-IsAdmitted actor proof now d h = elim (Option-cases (find ℕ_discrete actor d.users)) [
  | inl e ↦ ground (arith, e)
  | inr (row, e) ↦ record {
    row = row;
    found = e;
    is_admin = ground (arith, e, h);
    own = ground (arith, e, h);
    current = ground (arith, e, h);
    live = ground (arith, e, h);
  }
]

tx-IsAdmitted {ℓ} :
    {A : Type ℓ} (actor : ℕ) (proof : Proof) (now : ℕ) (write : Db → Res A) (d : Db)
    → Ensures (λ (_ : A). IsAdmitted actor proof now d) (admin_user_tx actor proof now write d)
unfolding admin_user_tx
tx-IsAdmitted actor proof now write d =
    Ensures-then _ (admit actor proof now d) (write d)
      (λ h. Ensures-always _ (write d) (admit-IsAdmitted actor proof now d h))

create-IsAdmitted :
    (trim : UserName → UserName) (actor : ℕ) (name : UserName) (hash : Option String) (admin : Bool)
    (libs : List ℕ) (proof : Proof) (now : ℕ) (d : Db)
    → Ensures
        (λ (_ : Db × ℕ). IsAdmitted actor proof now d)
        (admin_create_user trim actor name hash admin libs proof now d)
unfolding admin_create_user
create-IsAdmitted trim actor name hash admin libs proof now d =
    Ensures-or_error _ (normalize_user_name trim name) _ _ (λ n _.
      Ensures-or_error _ hash _ _
        (λ h _. tx-IsAdmitted actor proof now (insert_with_libraries n h admin libs) d))

update-IsAdmitted :
    (trim : UserName → UserName) (actor id : ℕ) (update : AdminUserUpdate) (proof : Proof) (now : ℕ)
    (d : Db)
    → Ensures
        (λ (_ : Db). IsAdmitted actor proof now d)
        (admin_update_user trim actor id update proof now d)
unfolding admin_update_user
update-IsAdmitted trim actor id update proof now d =
    Ensures-chain _ (λ _. Unit {0}) (checked_name trim update.name) _ (Ensures-always _ _ tt)
      (λ name _.
        Ensures-chain _ (λ _. Unit {0}) (checked_hash update.password) _ (Ensures-always _ _ tt)
          (λ hash _. tx-IsAdmitted actor proof now (update_user id name hash update) d))

rotate-IsAdmitted :
    (a : Actor) (proof : Proof) (stable : String) (version : ℕ) (new : NewKey) (now : ℕ) (d : Db)
    → Ensures
        (λ (_ : Db). IsAdmitted a.user_id proof now d)
        (rotate_for_request a proof stable version new now d)
unfolding rotate_for_request
rotate-IsAdmitted a proof stable version new now d =
    Ensures-guard _ (a.user_id == proof.user_id && proof.is_session) _ _ (λ _.
      Ensures-guard _ (ltb 0 a.user_id && ltb 0 a.generation && a.is_admin) _ _ (λ _.
        Ensures-or_error _ (find string_discrete stable d.keys) _ _
          (λ _ _. tx-IsAdmitted a.user_id proof now (replace_key a stable version new) d)))

-- The tables after an operation whose request is a pair with a number.
tables {ℓ} :
    (P : Type ℓ) (r : Res (Db × ℕ))
    → Ensures (λ (_ : Db × ℕ). P) r
    → Ensures (λ (_ : Db). P) (r >>= λ p. ok p.0)
tables P r h = Ensures-chain _ _ r _ h (λ p q. Ensures-ok _ p.0 q)

abbrev pub Authority : Option (ℕ × Proof × ℕ) → Db → Type 0
Authority none d = Unit {0}
Authority (some (actor, proof, now)) d = IsAdmitted actor proof now d

perform-Authority :
    (trim : UserName → UserName) (o : Op) (d : Db)
    → Ensures (λ (_ : Db). Authority (request_of o) d) (perform trim o d)
unfolding perform request_of admin_delete_user admin_revoke_all admin_create_api_key
    admin_delete_api_key
perform-Authority trim (Op.create name hash admin) d = Ensures-always _ _ tt
perform-Authority trim (Op.set_password id generation hash) d = Ensures-always _ _ tt
perform-Authority trim (Op.rename id name) d = Ensures-always _ _ tt
perform-Authority trim (Op.set_admin id admin) d = Ensures-always _ _ tt
perform-Authority trim (Op.remove id) d = Ensures-always _ _ tt
perform-Authority trim (Op.revoke id) d = Ensures-always _ _ tt
perform-Authority trim Op.revoke_every d = Ensures-always _ _ tt
perform-Authority trim (Op.log_in token id generation expiry) d = Ensures-always _ _ tt
perform-Authority trim (Op.validate token now ttl) d = Ensures-always _ _ tt
perform-Authority trim (Op.log_out token) d = Ensures-always _ _ tt
perform-Authority trim (Op.give_libraries id libs) d = Ensures-always _ _ tt
perform-Authority trim (Op.admin_create actor name hash admin libs proof now) d =
    tables _ (admin_create_user trim actor name hash admin libs proof now d)
      (create-IsAdmitted trim actor name hash admin libs proof now d)
perform-Authority trim (Op.admin_update actor id update proof now) d =
    update-IsAdmitted trim actor id update proof now d
perform-Authority trim (Op.admin_remove actor id proof now) d =
    tx-IsAdmitted actor proof now (delete_user id) d
perform-Authority trim (Op.admin_revoke proof now) d =
    tables _ (admin_revoke_all proof now d)
      (tx-IsAdmitted proof.user_id proof now (λ (x : Db). ok (revoke_all x)) d)
perform-Authority trim (Op.add_key stable new name id) d = Ensures-always _ _ tt
perform-Authority trim (Op.admin_add_key stable new name proof now) d =
    tx-IsAdmitted proof.user_id proof now (insert_key stable new name proof.user_id) d
perform-Authority trim (Op.rotate a stable version new) d = Ensures-always _ _ tt
perform-Authority trim (Op.rotate_request a proof stable version new now) d =
    rotate-IsAdmitted a proof stable version new now d
perform-Authority trim (Op.drop_key stable version) d = Ensures-always _ _ tt
perform-Authority trim (Op.admin_drop_key stable version proof now) d =
    Ensures-or_error _ (find string_discrete stable d.keys) _ _
      (λ _ _. tx-IsAdmitted proof.user_id proof now (delete_key stable version) d)

-- An operation that an administrator's request carries out succeeds only if the account is there and
-- an administrator, the request was authenticated as that account under its present generation, and its
-- session or API key is still live.
pub perform-IsAdmitted :
    (trim : UserName → UserName) (o : Op) (actor : ℕ) (proof : Proof) (now : ℕ) (d e : Db)
    → request_of o ≡ some (actor, proof, now)
    → perform trim o d ≡ ok e
    → IsAdmitted actor proof now d
unfolding Ensures
perform-IsAdmitted trim o actor proof now d e r h =
    let all : Ensures (λ (_ : Db). Authority (request_of o) d) (ok e) =
      subst (λ (x : Res Db). Ensures (λ (_ : Db). Authority (request_of o) d) x) h
        (perform-Authority trim o d) in
    subst (λ (x : Option (ℕ × Proof × ℕ)). Authority x d) r all
