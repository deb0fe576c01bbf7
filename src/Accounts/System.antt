-- ===== src/Accounts/System.antt =====
-- Any sequence of the operations on accounts, sessions and API keys (internal/store): each is one
-- transaction, and one that fails leaves the tables as they were.
use emby_go.Base.{ℕ, Bool, List, [], ◌∷◌, Option, String}
use emby_go.Accounts.Rows.{UserName, Db, Res, ok, ◌>>=◌, settle}
use emby_go.Accounts.Users.{
  create_user, set_user_password, rename_user, set_user_admin, delete_user,
  revoke_user_access_tokens,
}
use emby_go.Accounts.Sessions.{
  Proof, save_access_token, validate_access_token, delete_access_token, revoke_all,
}
use emby_go.Accounts.Admin.{
  AdminUserUpdate, set_user_libraries, admin_create_user, admin_update_user, admin_delete_user,
  admin_revoke_all,
}
use emby_go.Accounts.Keys.{
  NewKey, Actor, insert_key, admin_create_api_key, rotate_api_key, rotate_for_request,
  delete_api_key, admin_delete_api_key,
}

-- The operations with their arguments, in the order of the functions.
pub data Op : Type 0 where
  create : UserName → Option String → Bool → Op
  set_password : ℕ → Option ℕ → Option String → Op
  rename : ℕ → UserName → Op
  set_admin : ℕ → Bool → Op
  remove : ℕ → Op
  revoke : ℕ → Op
  revoke_every : Op
  log_in : String → ℕ → Option ℕ → Option ℕ → Op
  validate : String → ℕ → ℕ → Op
  log_out : String → Op
  give_libraries : ℕ → List ℕ → Op
  admin_create : ℕ → UserName → Option String → Bool → List ℕ → Proof → ℕ → Op
  admin_update : ℕ → ℕ → AdminUserUpdate → Proof → ℕ → Op
  admin_remove : ℕ → ℕ → Proof → ℕ → Op
  admin_revoke : Proof → ℕ → Op
  add_key : String → NewKey → String → ℕ → Op
  admin_add_key : String → NewKey → String → Proof → ℕ → Op
  rotate : Actor → String → ℕ → NewKey → Op
  rotate_request : Actor → Proof → String → ℕ → NewKey → ℕ → Op
  drop_key : String → ℕ → Op
  admin_drop_key : String → ℕ → Proof → ℕ → Op

abbrev first_of : Res (Db × ℕ) → Res Db
first_of r = r >>= λ p. ok p.0

-- The tables after an operation; `trim` is `strings.TrimSpace`.
unfoldable pub perform : (UserName → UserName) → Op → Db → Res Db
perform trim (Op.create name hash admin) d = first_of (create_user trim name hash admin d)
perform trim (Op.set_password id generation hash) d = set_user_password id generation hash d
perform trim (Op.rename id name) d = rename_user trim id name d
perform trim (Op.set_admin id admin) d = set_user_admin id admin d
perform trim (Op.remove id) d = delete_user id d
perform trim (Op.revoke id) d = ok (revoke_user_access_tokens id d)
perform trim Op.revoke_every d = ok (revoke_all d).0
perform trim (Op.log_in token id generation expiry) d =
    save_access_token token id generation expiry d
perform trim (Op.validate token now ttl) d = ok (validate_access_token token now ttl d).0
perform trim (Op.log_out token) d = ok (delete_access_token token d)
perform trim (Op.give_libraries id libs) d = set_user_libraries id libs d
perform trim (Op.admin_create actor name hash admin libs proof now) d =
    first_of (admin_create_user trim actor name hash admin libs proof now d)
perform trim (Op.admin_update actor id update proof now) d =
    admin_update_user trim actor id update proof now d
perform trim (Op.admin_remove actor id proof now) d = admin_delete_user actor id proof now d
perform trim (Op.admin_revoke proof now) d = first_of (admin_revoke_all proof now d)
perform trim (Op.add_key stable new name id) d = insert_key stable new name id d
perform trim (Op.admin_add_key stable new name proof now) d =
    admin_create_api_key stable new name proof now d
perform trim (Op.rotate a stable version new) d = rotate_api_key a stable version new d
perform trim (Op.rotate_request a proof stable version new now) d =
    rotate_for_request a proof stable version new now d
perform trim (Op.drop_key stable version) d = delete_api_key stable version d
perform trim (Op.admin_drop_key stable version proof now) d =
    admin_delete_api_key stable version proof now d

unfoldable pub run : (UserName → UserName) → List Op → Db → Db
run trim [] d = d
run trim (o ∷ l) d = run trim l (settle d (perform trim o d))
