-- ===== src/Accounts/Sessions.antt =====
-- Login sessions (internal/store/users.go and store.go). A token stands for its digest, the SHA-256 of
-- `tokenHash`. Times are seconds.
use emby_go.Base.{
  ℕ, ◌+◌, ◌-◌, Bool, true, false, ◌&&◌, [], ◌∷◌, Option, none, some, String, Table, find, put,
  erase, ℕ_discrete, string_discrete, ltb, leb, ◌==◌, if◌then◌else◌, length,
}
use emby_go.Accounts.Rows.{
  UserRow, TokenRow, KeyRow, Db, StoreError, Res, ok, ◌>>=◌, ◌>>◌, guard, or_error, is_free,
}

abbrev pub day : ℕ
day = 86400

-- `saveAccessToken`: a session of the generation that the account has, or of the one that was
-- authenticated. A digest that is there is not given to another account.
unfoldable pub save_access_token : String → ℕ → Option ℕ → Option ℕ → Db → Res Db
save_access_token token user_id generation expires_at d = do
  row ← or_error (find ℕ_discrete user_id d.users) StoreError.authentication_changed
  guard (elim generation [ none ↦ true | some g ↦ row.auth_generation == g ])
      StoreError.authentication_changed
  guard (is_free (find string_discrete token d.tokens)) StoreError.authentication_changed
  let session : TokenRow = record {
    user_id = user_id;
    auth_generation = row.auth_generation;
    expires_at = expires_at;
  }
  ok (record d { tokens = put string_discrete token session d.tokens })

-- The JOIN of a session with its account, of the same generation.
unfoldable pub live_session : String → Db → Option TokenRow
live_session token d = elim (find string_discrete token d.tokens) [
  | none ↦ none
  | some t ↦ elim (find ℕ_discrete t.user_id d.users) [
    | none ↦ none
    | some row ↦ if row.auth_generation == t.auth_generation then some t else none
  ]
]

-- `ValidateAccessTokenUser`: the account of the session. An expired session is deleted, and one that
-- has run for a day is extended.
unfoldable pub validate_access_token : String → ℕ → ℕ → Db → Db × Option ℕ
unfolding live_session
validate_access_token token now ttl d = elim (live_session token d) [
  | none ↦ (d, none)
  | some t ↦ elim t.expires_at [
    | none ↦ (d, some t.user_id)
    | some expiry ↦
        let longer = record t { expires_at = some (now + ttl) } in
        if leb expiry now
        then (record d { tokens = erase string_discrete token d.tokens }, none)
        else if ltb 0 ttl && ltb (expiry - now) (ttl - day)
        then (record d { tokens = put string_discrete token longer d.tokens }, some t.user_id)
        else (d, some t.user_id)
  ]
]

-- `DeleteAccessToken`
unfoldable pub delete_access_token : String → Db → Db
delete_access_token token d = record d { tokens = erase string_discrete token d.tokens }

unfoldable pub next_generation : Table ℕ UserRow → Table ℕ UserRow
next_generation [] = []
next_generation ((id, r) ∷ t) =
    (id, record r { auth_generation = r.auth_generation + 1 }) ∷ next_generation t

-- `RevokeAllAccessTokens`, with the number of sessions.
unfoldable pub revoke_all : Db → Db × ℕ
unfolding next_generation
revoke_all d = (record d { users = next_generation d.users; tokens = [] }, length d.tokens)

-- What a request carries after its credential was checked: the account, its generation, the digest,
-- and whether it is a session (or an API key).
pub record Proof : Type 0 where
  pub user_id : ℕ
  pub generation : ℕ
  pub credential : String
  pub is_session : Bool

-- `t.expires_at IS NULL OR t.expires_at > now`
unfoldable pub is_unexpired : ℕ → TokenRow → Bool
is_unexpired now t = elim t.expires_at [ none ↦ true | some expiry ↦ ltb now expiry ]

unfoldable pub has_key : String → ℕ → Table String KeyRow → Bool
has_key digest user_id [] = false
has_key digest user_id ((stable, k) ∷ t) =
    let rest = has_key digest user_id t in
    elim (string_discrete k.digest digest) [
      | yes e ↦ if k.user_id == user_id then true else rest
      | no e ↦ rest
    ]

-- Whether a session of an account with a generation is there.
unfoldable pub has_session : String → ℕ → ℕ → ℕ → Db → Bool
unfolding is_unexpired
has_session token user_id generation now d = elim (find string_discrete token d.tokens) [
  | none ↦ false
  | some t ↦ t.user_id == user_id && t.auth_generation == generation && is_unexpired now t
]

-- `RequestCredentialUser`
unfoldable pub request_credential_user : String → ℕ → Bool → ℕ → Db → Res Proof
unfolding has_session has_key
request_credential_user credential user_id is_session now d = do
  row ← or_error (find ℕ_discrete user_id d.users) StoreError.user_not_found
  guard
      (if is_session
        then has_session credential user_id row.auth_generation now d
        else has_key credential user_id d.keys)
      StoreError.user_not_found
  let proof : Proof = record {
    user_id = user_id;
    generation = row.auth_generation;
    credential = credential;
    is_session = is_session;
  }
  ok proof
