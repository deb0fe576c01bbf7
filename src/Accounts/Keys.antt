-- ===== src/Accounts/Keys.antt =====
-- API keys (internal/store/api_key_rotation.go, admin_credentials.go and store.go). A key is named by
-- its stable id; finding the stable id of an older form of name is left out. The digest, its prefix and
-- the stable id of a new key come from crypto/rand and are arguments.
use emby_go.Base.{
  ℕ, ◌+◌, Bool, true, false, not, ◌&&◌, ◌||◌, [], ◌∷◌, Option, none, some, String, Table, find, put,
  erase, ℕ_discrete, string_discrete, ◌==◌, ltb, if◌then◌else◌, ite,
}
use emby_go.Accounts.Rows.{
  KeyRow, Db, StoreError, Res, ok, err, ◌>>=◌, ◌>>◌, guard, or_error, is_free,
}
use emby_go.Accounts.Sessions.{Proof}
use emby_go.Accounts.Admin.{admin_user_tx}

-- The credential of a new key.
pub record NewKey : Type 0 where
  pub digest : String
  pub prefix : String

-- The primary key: whether a row has the digest.
unfoldable pub has_digest : String → Table String KeyRow → Bool
has_digest digest [] = false
has_digest digest ((stable, k) ∷ t) =
    let rest = has_digest digest t in ite (string_discrete k.digest digest) true rest

-- Whether another row has the digest.
unfoldable pub has_other_digest : String → String → Table String KeyRow → Bool
has_other_digest stable digest [] = false
has_other_digest stable digest ((j, k) ∷ t) =
    let rest = has_other_digest stable digest t in
    ite (string_discrete j stable) rest (ite (string_discrete k.digest digest) true rest)

-- The INSERT of `CreateAPIKeyForUser` and `AdminCreateAPIKey`.
unfoldable pub insert_key : String → NewKey → String → ℕ → Db → Res Db
unfolding has_digest
insert_key stable new name user_id d = do
  guard (not (has_digest new.digest d.keys)) StoreError.duplicate_key
  guard (is_free (find string_discrete stable d.keys)) StoreError.duplicate_key
  let row : KeyRow = record {
    digest = new.digest;
    prefix = new.prefix;
    name = name;
    user_id = user_id;
    version = 1;
  }
  ok (record d { keys = put string_discrete stable row d.keys })

-- `AdminCreateAPIKey`
unfoldable pub admin_create_api_key : String → NewKey → String → Proof → ℕ → Db → Res Db
admin_create_api_key stable new name proof now =
    admin_user_tx proof.user_id proof now (insert_key stable new name proof.user_id)

-- The account that authenticated again before a rotation.
pub record Actor : Type 0 where
  pub user_id : ℕ
  pub generation : ℕ
  pub is_admin : Bool

-- `EXISTS (SELECT 1 FROM users …)`
unfoldable pub is_current_admin : Actor → Db → Bool
is_current_admin a d = elim (find ℕ_discrete a.user_id d.users) [
  | none ↦ false
  | some row ↦ row.auth_generation == a.generation && row.is_admin
]

-- `classifyAPIKeyConflict`, and the update where there is no conflict.
unfoldable pub replace_key : Actor → String → ℕ → NewKey → Db → Res Db
unfolding is_current_admin has_other_digest
replace_key a stable version new d = do
  k ← or_error (find string_discrete stable d.keys) StoreError.key_not_found
  guard (is_current_admin a d) StoreError.generation_stale
  guard (k.version == version) StoreError.key_version_stale
  guard (not (has_other_digest stable new.digest d.keys)) StoreError.duplicate_key
  let row = record k { digest = new.digest; prefix = new.prefix; version = k.version + 1 }
  ok (record d { keys = put string_discrete stable row d.keys })

-- `RotateAPIKey`
unfoldable pub rotate_api_key : Actor → String → ℕ → NewKey → Db → Res Db
rotate_api_key a stable version new d = do
  guard (ltb 0 a.user_id && ltb 0 a.generation && a.is_admin) StoreError.generation_stale
  or_error (find string_discrete stable d.keys) StoreError.key_not_found >>= λ _.
      replace_key a stable version new d

-- `RotateAPIKeyForRequest`
unfoldable pub rotate_for_request : Actor → Proof → String → ℕ → NewKey → ℕ → Db → Res Db
rotate_for_request a proof stable version new now d = do
  guard (a.user_id == proof.user_id && proof.is_session) StoreError.generation_stale
  guard (ltb 0 a.user_id && ltb 0 a.generation && a.is_admin) StoreError.generation_stale
  or_error (find string_discrete stable d.keys) StoreError.key_not_found >>= λ _.
      admin_user_tx a.user_id proof now (replace_key a stable version new) d

-- The DELETE of a key, of a version if one is given (0 is none).
unfoldable pub delete_key : String → ℕ → Db → Res Db
delete_key stable version d = elim (find string_discrete stable d.keys) [
  | none ↦ err (if ltb 0 version then StoreError.key_version_stale else StoreError.key_not_found)
  | some k ↦
      if version == 0 || k.version == version
      then ok (record d { keys = erase string_discrete stable d.keys })
      else err StoreError.key_version_stale
]

-- `DeleteAPIKeyByVersion`: the name is resolved first.
unfoldable pub delete_api_key : String → ℕ → Db → Res Db
unfolding delete_key
delete_api_key stable version d = do
  k ← or_error (find string_discrete stable d.keys) StoreError.key_not_found
  delete_key stable version d

-- `AdminDeleteAPIKey`
unfoldable pub admin_delete_api_key : String → ℕ → Proof → ℕ → Db → Res Db
admin_delete_api_key stable version proof now d = do
  k ← or_error (find string_discrete stable d.keys) StoreError.key_not_found
  admin_user_tx proof.user_id proof now (delete_key stable version) d

-- `APIKeyUser`: the account of a digest.
unfoldable pub api_key_user : String → Table String KeyRow → Option ℕ
api_key_user digest [] = none
api_key_user digest ((stable, k) ∷ t) =
    let rest = api_key_user digest t in ite (string_discrete k.digest digest) (some k.user_id) rest
