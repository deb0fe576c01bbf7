-- ===== src/Accounts/Rotated.antt =====
-- What the rotation of an API key (internal/store/api_key_rotation.go) leaves behind.
use emby_go.Base.{
  ℕ, ◌+◌, ◌≡◌, ◌≢◌, ◌⊎◌, refl, inl, inr, true, false, ◌&&◌, [], ◌∷◌, none, some, String, Table,
  find, put, find-put, string_discrete, ◌==◌, arith, ltb, Bool-cases,
}
use emby_go.Accounts.Rows.{KeyRow, Db, StoreError, ok, err}
use emby_go.Accounts.Keys.{
  NewKey, Actor, is_current_admin, has_digest, replace_key, rotate_api_key, api_key_user,
}

-- The digest is a primary key: no two rows have the same.
abbrev pub IsDistinct : Table String KeyRow → Type 0
IsDistinct [] = Unit {0}
IsDistinct ((j, k) ∷ t) = (has_digest k.digest t ≡ false) × IsDistinct t

has_digest-find :
    (stable : String) (k : KeyRow) (t : Table String KeyRow)
    → find string_discrete stable t ≡ some k
    → has_digest k.digest t ≡ true
unfolding has_digest find
has_digest-find stable k [] h = ground arith
has_digest-find stable k ((j, r) ∷ t) h = ground (arith, has_digest-find stable k t)

-- The old digest is gone once its row has another.
old-gone :
    (stable : String) (k row : KeyRow) (t : Table String KeyRow)
    → IsDistinct t
    → find string_discrete stable t ≡ some k
    → has_digest row.digest t ≡ false
    → has_digest k.digest (put string_discrete stable row t) ≡ false
unfolding has_digest find put
old-gone stable k row [] u h n = ground arith
old-gone stable k row ((j, r) ∷ t) (x, u) h n =
    ground (arith, old-gone stable k row t u, has_digest-find stable k t, x)

api_key_user-absent :
    (digest : String) (t : Table String KeyRow)
    → has_digest digest t ≡ false
    → api_key_user digest t ≡ none
unfolding has_digest api_key_user
api_key_user-absent digest [] h = refl
api_key_user-absent digest ((j, r) ∷ t) h = ground (arith, api_key_user-absent digest t)

api_key_user-put :
    (stable : String) (k row : KeyRow) (t : Table String KeyRow)
    → find string_discrete stable t ≡ some k
    → has_digest row.digest t ≡ false
    → api_key_user row.digest (put string_discrete stable row t) ≡ some row.user_id
unfolding has_digest find put api_key_user
api_key_user-put stable k row [] h n = ground arith
api_key_user-put stable k row ((j, r) ∷ t) h n = ground (arith, api_key_user-put stable k row t)

-- The row of a key after a rotation.
abbrev pub rotated : NewKey → KeyRow → KeyRow
rotated new k = record k { digest = new.digest; prefix = new.prefix; version = k.version + 1 }

replaced :
    (a : Actor) (stable : String) (version : ℕ) (new : NewKey) (k : KeyRow) (d e : Db)
    → find string_discrete stable d.keys ≡ some k
    → rotate_api_key a stable version new d ≡ ok e
    → (e.keys ≡ put string_discrete stable (rotated new k) d.keys) × (k.version ≡ version)
unfolding rotate_api_key replace_key
replaced a stable version new k d e f h = (ground (arith, f), ground (arith, f))

stale_version :
    (a : Actor) (stable : String) (version : ℕ) (new : NewKey) (row : KeyRow) (e : Db)
    → find string_discrete stable e.keys ≡ some row
    → (row.version == version) ≡ false
    → (rotate_api_key a stable version new e ≡ err StoreError.key_version_stale)
      ⊎ (rotate_api_key a stable version new e ≡ err StoreError.generation_stale)
unfolding rotate_api_key replace_key
stale_version a stable version new row e f v =
    elim (Bool-cases (ltb 0 a.user_id && ltb 0 a.generation && a.is_admin)) [
      | inl c ↦ elim (Bool-cases (is_current_admin a e)) [
        | inl i ↦ inl (ground (arith, f, v, c, i))
        | inr i ↦ inr (ground (arith, f, v, c, i))
      ]
      | inr c ↦ inr (ground (arith, c))
    ]

-- After a rotation that succeeds, where no two keys have the same digest and
-- none has the new one: the old credential belongs to
-- no account, the new one belongs to the account of the key, other keys are as before, and whoever
-- rotates the key again from the version that was rotated is refused.
pub rotate-lem :
    (a b : Actor) (stable other : String) (version : ℕ) (new later : NewKey) (k : KeyRow) (d e : Db)
    → IsDistinct d.keys
    → find string_discrete stable d.keys ≡ some k
    → stable ≢ other
    → has_digest new.digest d.keys ≡ false
    → rotate_api_key a stable version new d ≡ ok e
    → (api_key_user k.digest e.keys ≡ none)
      × (api_key_user new.digest e.keys ≡ some k.user_id)
      × (find string_discrete other e.keys ≡ find string_discrete other d.keys)
      × ((rotate_api_key b stable version later e ≡ err StoreError.key_version_stale)
          ⊎ (rotate_api_key b stable version later e ≡ err StoreError.generation_stale))
rotate-lem a b stable other version new later k d e u f x n h =
    let (keys, v) = replaced a stable version new k d e f h in
    let row = rotated new k in
    (
      api_key_user-absent k.digest e.keys
          (ground (arith, keys, old-gone stable k row d.keys u f n)),
      ground (arith, keys, api_key_user-put stable k row d.keys f n),
      ground (arith, keys, find-put string_discrete stable other row d.keys),
      stale_version b stable version later row e
          (ground (arith, keys, find-put string_discrete stable stable row d.keys))
          (ground (arith, v)),
    )
