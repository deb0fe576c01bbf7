-- ===== src/Accounts/Kept.antt =====
-- How an operation on accounts (internal/store/users.go, admin_users.go) changes the users: which rows
-- it may write, and when. What holds after each of the writes holds after every operation.
use emby_go.Base.{
  ℕ, ◌+◌, ◌≤◌, ◌≡◌, refl, Bool, true, false, Option, none, some, Table, find, put, erase,
  ℕ_discrete,
}
use emby_go.Accounts.Rows.{UserRow, Db, StoreError, Res, ok, err, ◌>>=◌, ◌>>◌, guard, or_error}
use emby_go.Accounts.Users.{count_other_admins}
use emby_go.Accounts.Sessions.{next_generation}

-- What holds of a result that is no error.
unfoldable pub Ensures {ℓ κ} : {A : Type ℓ} → (A → Type κ) → Res A → Type κ
Ensures P (ok a) = P a
Ensures P (err e) = Unit {κ}

module _ {ℓ κ} {B : Type ℓ} (P : B → Type κ) where
  pub Ensures-ok : (b : B) → P b → Ensures P (ok b)
  unfolding Ensures
  Ensures-ok b p = p

  pub Ensures-err : (e : StoreError) → Ensures P (err e)
  unfolding Ensures
  Ensures-err e = tt

  pub Ensures-guard :
      (c : Bool) (e : StoreError) (k : Res B)
      → (c ≡ true → Ensures P k)
      → Ensures P (guard c e >> k)
  unfolding Ensures
  Ensures-guard true e k h = h refl
  Ensures-guard false e k h = tt

  pub Ensures-or_error {ι} :
      {A : Type ι} (o : Option A) (e : StoreError) (k : A → Res B)
      → ((a : A) → o ≡ some a → Ensures P (k a))
      → Ensures P (or_error o e >>= k)
  unfolding Ensures
  Ensures-or_error none e k h = tt
  Ensures-or_error (some a) e k h = h a refl

  pub Ensures-then :
      (m : Res (Unit {0})) (k : Res B) → (m ≡ ok tt → Ensures P k) → Ensures P (m >> k)
  unfolding Ensures
  Ensures-then (ok tt) k h = h refl
  Ensures-then (err e) k h = tt

  pub Ensures-chain {ι μ} :
      {A : Type ι} (Q : A → Type μ) (m : Res A) (k : A → Res B)
      → Ensures Q m
      → ((a : A) → Q a → Ensures P (k a))
      → Ensures P (m >>= k)
  unfolding Ensures
  Ensures-chain Q (ok a) k q h = h a q
  Ensures-chain Q (err e) k q h = tt

  pub Ensures-weaken {μ} :
      (Q : B → Type μ) (m : Res B) → Ensures Q m → ((b : B) → Q b → P b) → Ensures P m
  unfolding Ensures
  Ensures-weaken Q (ok b) q h = h b q
  Ensures-weaken Q (err e) q h = tt

-- What holds whatever a result is.
pub Ensures-always {ℓ κ} : {A : Type ℓ} (P : Type κ) (m : Res A) → P → Ensures (λ (_ : A). P) m
Ensures-always P (ok a) p = Ensures-ok _ a p
Ensures-always P (err e) p = Ensures-err _ e

-- Whether the role of a row may be taken away.
abbrev pub MayLose : ℕ → Bool → Bool → Table ℕ UserRow → Type 0
MayLose id old new t = (old ≡ true) → (new ≡ false) → 1 ≤ count_other_admins id t

pub data Change : Table ℕ UserRow → ℕ → Table ℕ UserRow → ℕ → Type 0 where
  same : {t : Table ℕ UserRow} {n : ℕ} → Change t n t n
  written :
      {t : Table ℕ UserRow} {n : ℕ} (id : ℕ) (row old : UserRow)
      → find ℕ_discrete id t ≡ some old
      → old.auth_generation ≤ row.auth_generation
      → MayLose id old.is_admin row.is_admin t
      → Change t n (put ℕ_discrete id row t) n
  added :
      {t : Table ℕ UserRow} {n : ℕ} (row : UserRow) → Change t n (put ℕ_discrete n row t) (n + 1)
  removed :
      {t : Table ℕ UserRow} {n : ℕ} (id : ℕ) (old : UserRow)
      → find ℕ_discrete id t ≡ some old
      → MayLose id old.is_admin false t
      → Change t n (erase ℕ_discrete id t) n
  grown : {t : Table ℕ UserRow} {n : ℕ} → Change t n (next_generation t) n
  chained : {t u v : Table ℕ UserRow} {n m k : ℕ} → Change t n u m → Change u m v k → Change t n v k

-- The change of the users of the tables.
abbrev pub Changes : Db → Db → Type 0
Changes d e = Change d.users d.next_user_id e.users e.next_user_id
