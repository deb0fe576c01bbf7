-- ===== src/Accounts/Counts.antt =====
-- Sums over the rows of a table, for the administrators of internal/store/users.go.
use emby_go.Base.{
  ℕ, ◌+◌, ◌≤◌, ◌≡◌, refl, Bool, false, [], ◌∷◌, none, some, Table, find, put, erase, IsKeyed,
  ℕ_discrete, if◌then◌else◌, arith,
}
use emby_go.Accounts.Rows.{UserRow}
use emby_go.Accounts.Users.{count_other_admins}
use emby_go.Accounts.Sessions.{next_generation}

abbrev pub admin_weight : Bool → ℕ
admin_weight a = if a then 1 else 0

-- The number of administrators.
unfoldable pub count_admins : Table ℕ UserRow → ℕ
count_admins [] = 0
count_admins ((j, r) ∷ t) = admin_weight r.is_admin + count_admins t

pub admins-put_old :
    (id : ℕ) (row old : UserRow) (t : Table ℕ UserRow)
    → find ℕ_discrete id t ≡ some old
    → count_admins (put ℕ_discrete id row t) + admin_weight old.is_admin
      ≡ count_admins t + admin_weight row.is_admin
unfolding count_admins find put
admins-put_old id row old [] h = ground arith
admins-put_old id row old ((j, r) ∷ t) h = ground (arith, admins-put_old id row old t)

-- Whatever is written under an id, the administrators with other ids stay.
pub others-put-le :
    (id : ℕ) (row : UserRow) (t : Table ℕ UserRow)
    → count_other_admins id t ≤ count_admins (put ℕ_discrete id row t)
unfolding count_admins put count_other_admins
others-put-le id row [] = omega arith
others-put-le id row ((j, r) ∷ t) = ground (arith, others-put-le id row t, others-le t)
  where
    others-le : (t : Table ℕ UserRow) → count_other_admins id t ≤ count_admins t
    others-le [] = omega arith
    others-le ((j, r) ∷ t) = ground (arith, others-le t)

pub admins-put-le :
    (id : ℕ) (row : UserRow) (t : Table ℕ UserRow)
    → count_admins t ≤ count_admins (put ℕ_discrete id row t) + 1
unfolding count_admins put
admins-put-le id row [] = omega arith
admins-put-le id row ((j, r) ∷ t) = ground (arith, admins-put-le id row t)

pub admins-erase :
    (id : ℕ) (t : Table ℕ UserRow) → count_admins (erase ℕ_discrete id t) ≡ count_other_admins id t
unfolding count_admins erase count_other_admins
admins-erase id [] = refl
admins-erase id ((j, r) ∷ t) = ground (arith, admins-erase id t)

pub admins-put_new :
    (id : ℕ) (row : UserRow) (t : Table ℕ UserRow)
    → find ℕ_discrete id t ≡ none
    → count_admins (put ℕ_discrete id row t) ≡ count_admins t + admin_weight row.is_admin
unfolding count_admins find put
admins-put_new id row [] h = ground arith
admins-put_new id row ((j, r) ∷ t) h = ground (arith, admins-put_new id row t)

pub admins-next_generation :
    (t : Table ℕ UserRow) → count_admins (next_generation t) ≡ count_admins t
unfolding count_admins next_generation
admins-next_generation [] = refl
admins-next_generation ((j, r) ∷ t) = omega (arith, admins-next_generation t)

pub find-next_generation :
    (id : ℕ) (t : Table ℕ UserRow)
    → find ℕ_discrete id (next_generation t) ≡ elim (find ℕ_discrete id t) [
      | none ↦ none
      | some r ↦ some (record r { auth_generation = r.auth_generation + 1 })
    ]
unfolding next_generation find
find-next_generation id [] = refl
find-next_generation id ((j, r) ∷ t) = ground (arith, find-next_generation id t)

pub next_generation-IsKeyed :
    (t : Table ℕ UserRow) → IsKeyed ℕ_discrete t → IsKeyed ℕ_discrete (next_generation t)
unfolding next_generation
next_generation-IsKeyed [] h = tt
next_generation-IsKeyed ((j, r) ∷ t) (f, h) =
    (ground (arith, find-next_generation j t, f), next_generation-IsKeyed t h)

others-absent :
    (id : ℕ) (t : Table ℕ UserRow)
    → find ℕ_discrete id t ≡ none
    → count_other_admins id t ≡ count_admins t
unfolding count_admins count_other_admins find
others-absent id [] h = refl
others-absent id ((j, r) ∷ t) h = ground (arith, others-absent id t)

-- Without a user who is no administrator, the administrators are the same.
pub others-not_admin :
    (id : ℕ) (row : UserRow) (t : Table ℕ UserRow)
    → IsKeyed ℕ_discrete t
    → find ℕ_discrete id t ≡ some row
    → row.is_admin ≡ false
    → count_other_admins id t ≡ count_admins t
unfolding count_admins count_other_admins find
others-not_admin id row [] k f h = refl
others-not_admin id row ((j, r) ∷ t) (u, k) f h =
    ground (arith, others-not_admin id row t k, others-absent id t)
