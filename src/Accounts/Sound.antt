-- ===== src/Accounts/Sound.antt =====
-- What holds of the users of internal/store/users.go after any sequence of operations.
use emby_go.Base.{
  ℕ, ◌≤◌, ◌≡◌, refl, inl, inr, List, [], ◌∷◌, none, Table, find, find-put, find-erase, IsKeyed,
  put-IsKeyed, erase-IsKeyed, ℕ_discrete, arith, Bool-cases,
}
use emby_go.Accounts.Rows.{UserName, UserRow, Db, Res, ok, err, settle}
use emby_go.Accounts.Counts.{
  count_admins, admins-put_old, others-put-le, admins-erase, admins-put_new, admins-next_generation,
  find-next_generation, next_generation-IsKeyed, others-not_admin,
}
use emby_go.Accounts.Kept.{Ensures, Change, Changes}
use emby_go.Accounts.System.{Op, perform, run}
use emby_go.Accounts.AdminChanges.{perform-Changes}

-- Each id has one row, no row has an id that is still to be given, and there is an administrator.
pub record Sound (t : Table ℕ UserRow) (n : ℕ) : Type 0 where
  pub keyed : IsKeyed ℕ_discrete t
  pub fresh : (id : ℕ) → n ≤ id → find ℕ_discrete id t ≡ none
  pub admins : 1 ≤ count_admins t

pub Sound-change : {t u : Table ℕ UserRow} {n m : ℕ} → Change t n u m → Sound t n → Sound u m
Sound-change Change.same s = s
Sound-change {t = t} (Change.written id row old e g l) s = record {
  keyed = put-IsKeyed ℕ_discrete id row t s.keyed;
  fresh = λ q h. ground (arith, find-put ℕ_discrete id q row t, s.fresh q h, e);
  admins = elim (Bool-cases old.is_admin) [
    | inl o ↦ elim (Bool-cases row.is_admin) [
      | inl r ↦ ground (arith, admins-put_old id row old t e, s.admins)
      | inr r ↦ ground (arith, admins-put_old id row old t e, s.admins, others-put-le id row t, l)
    ]
    | inr o ↦ ground (arith, admins-put_old id row old t e, s.admins)
  ];
}
Sound-change {t = t} {n = n} (Change.added row) s = record {
  keyed = put-IsKeyed ℕ_discrete n row t s.keyed;
  fresh = λ q h. ground (arith, find-put ℕ_discrete n q row t, s.fresh q (omega arith));
  admins = ground (arith, admins-put_new n row t (s.fresh n (omega arith)), s.admins);
}
Sound-change {t = t} (Change.removed id old e l) s = record {
  keyed = erase-IsKeyed ℕ_discrete id t s.keyed;
  fresh = λ q h. ground (arith, find-erase ℕ_discrete id q t, s.fresh q h);
  admins = elim (Bool-cases old.is_admin) [
    | inl o ↦ ground (arith, admins-erase id t, l o refl)
    | inr o ↦ ground (arith, admins-erase id t, others-not_admin id old t s.keyed e o, s.admins)
  ];
}
Sound-change {t = t} Change.grown s = record {
  keyed = next_generation-IsKeyed t s.keyed;
  fresh = λ q h. ground (arith, find-next_generation q t, s.fresh q h);
  admins = ground (arith, admins-next_generation t, s.admins);
}
Sound-change (Change.chained a b) s = Sound-change b (Sound-change a s)

-- A property that every change keeps holds after any sequence of operations.
pub run-keeps {ℓ} :
    (P : Db → Type ℓ) (trim : UserName → UserName) (l : List Op) (d : Db)
    → ((d e : Db) → Changes d e → P d → P e)
    → P d
    → P (run trim l d)
unfolding run Ensures settle
run-keeps P trim [] d h p = p
run-keeps P trim (o ∷ l) d h p =
    run-keeps P trim l _ h (settled (perform trim o d) (perform-Changes trim o d))
  where
    settled : (r : Res Db) → Ensures (Changes d) r → P (settle d r)
    settled (ok e) c = h d e c p
    settled (err e) c = p

pub run-Sound :
    (trim : UserName → UserName) (l : List Op) (d : Db)
    → Sound d.users d.next_user_id
    → Sound (run trim l d).users (run trim l d).next_user_id
run-Sound trim l d s =
    run-keeps (λ (e : Db). Sound e.users e.next_user_id) trim l d (λ a b c p. Sound-change c p) s

-- Whatever is done, by administrators, users and logins, and whether it succeeds or fails, an
-- administrator is left, where there is one, each id has one row and no row has an id that is still to
-- be given.
pub admins-run :
    (trim : UserName → UserName) (l : List Op) (d : Db)
    → Sound d.users d.next_user_id
    → 1 ≤ count_admins (run trim l d).users
admins-run trim l d s = (run-Sound trim l d s).admins
