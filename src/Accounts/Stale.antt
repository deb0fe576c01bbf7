-- ===== src/Accounts/Stale.antt =====
-- Generations of an account (internal/store/users.go): once one is over, it is over for good, and what
-- was issued or checked under it is refused.
use emby_go.Base.{
  ℕ, ◌⊎◌, ◌+◌, ◌<◌, ◌≡◌, inl, inr, Bool, true, false, not, ◌&&◌, Option, none, some, String, Table,
  find, find-put, find-erase, ℕ_discrete, ◌==◌, arith, ltb,
}
use emby_go.Accounts.Rows.{UserRow, TokenRow, Db, ok, drop_tokens_of, drop_keys_of}
use emby_go.Accounts.Users.{
  set_user_password, set_user_admin, delete_user, delete_rows, revoke_user_access_tokens, with_role,
}
use emby_go.Accounts.Sessions.{revoke_all}
use emby_go.Accounts.Counts.{find-next_generation}
use emby_go.Accounts.Sound.{Sound}

-- The id was given, and its account is gone or of a later generation.
unfoldable pub is_over : ℕ → ℕ → Table ℕ UserRow → ℕ → Bool
is_over id g t n =
    ltb id n && (elim (find ℕ_discrete id t) [ none ↦ true | some row ↦ ltb g row.auth_generation ])

set_password-is_over :
    (id : ℕ) (row : UserRow) (generation : Option ℕ) (hash : Option String) (d e : Db)
    → find ℕ_discrete id d.users ≡ some row
    → id < d.next_user_id
    → set_user_password id generation hash d ≡ ok e
    → is_over id row.auth_generation e.users e.next_user_id ≡ true
unfolding is_over set_user_password drop_tokens_of
set_password-is_over id row generation none d e f lt h = ground arith
set_password-is_over id row generation (some x) d e f lt h =
    let changed = record row { password_hash = x; auth_generation = row.auth_generation + 1 } in
    ground (arith, find-put ℕ_discrete id id changed d.users)

set_role-is_over :
    (id : ℕ) (row : UserRow) (d e : Db)
    → find ℕ_discrete id d.users ≡ some row
    → id < d.next_user_id
    → set_user_admin id (not row.is_admin) d ≡ ok e
    → is_over id row.auth_generation e.users e.next_user_id ≡ true
unfolding is_over set_user_admin with_role
set_role-is_over id row d e f lt h =
    ground (arith, find-put ℕ_discrete id id (with_role (not row.is_admin) row) d.users)

delete-is_over :
    (id : ℕ) (row : UserRow) (d e : Db)
    → find ℕ_discrete id d.users ≡ some row
    → id < d.next_user_id
    → delete_user id d ≡ ok e
    → is_over id row.auth_generation e.users e.next_user_id ≡ true
unfolding is_over delete_user delete_rows drop_tokens_of drop_keys_of
delete-is_over id row d e f lt h = ground (arith, find-erase ℕ_discrete id id d.users)

revoke-is_over :
    (id : ℕ) (row : UserRow) (d e : Db)
    → find ℕ_discrete id d.users ≡ some row
    → id < d.next_user_id
    → revoke_user_access_tokens id d ≡ e
    → is_over id row.auth_generation e.users e.next_user_id ≡ true
unfolding is_over revoke_user_access_tokens drop_tokens_of
revoke-is_over id row d e f lt h =
    let changed = record row { auth_generation = row.auth_generation + 1 } in
    ground (arith, find-put ℕ_discrete id id changed d.users)

revoke_all-is_over :
    (id : ℕ) (row : UserRow) (d e : Db)
    → find ℕ_discrete id d.users ≡ some row
    → id < d.next_user_id
    → (revoke_all d).0 ≡ e
    → is_over id row.auth_generation e.users e.next_user_id ≡ true
unfolding is_over revoke_all
revoke_all-is_over id row d e f lt h = ground (arith, find-next_generation id d.users)

-- Each way to revoke what was issued to an account that is there ends its generation: a password that
-- is set, a role that changes, a deletion, the revocation of its sessions and of all sessions. The first
-- three may fail, which is not meant here.
pub revoked-is_over :
    (id : ℕ) (row : UserRow) (generation : Option ℕ) (hash : Option String) (d e : Db)
    → find ℕ_discrete id d.users ≡ some row
    → id < d.next_user_id
    → (set_user_password id generation hash d ≡ ok e)
      ⊎ (set_user_admin id (not row.is_admin) d ≡ ok e)
      ⊎ (delete_user id d ≡ ok e)
      ⊎ (revoke_user_access_tokens id d ≡ e)
      ⊎ ((revoke_all d).0 ≡ e)
    → is_over id row.auth_generation e.users e.next_user_id ≡ true
revoked-is_over id row generation hash d e f lt h = elim h [
  | inl a ↦ set_password-is_over id row generation hash d e f lt a
  | inr (inl a) ↦ set_role-is_over id row d e f lt a
  | inr (inr (inl a)) ↦ delete-is_over id row d e f lt a
  | inr (inr (inr (inl a))) ↦ revoke-is_over id row d e f lt a
  | inr (inr (inr (inr a))) ↦ revoke_all-is_over id row d e f lt a
]

-- A session of an account that was given under a generation.
unfoldable pub is_session_of : ℕ → ℕ → Option TokenRow → Bool
is_session_of id g none = false
is_session_of id g (some t) = t.user_id == id && t.auth_generation == g
