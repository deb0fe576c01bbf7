-- ===== src/Accounts/Tests.antt =====
-- Accounts (internal/store/users.go, api_key_rotation.go) with concrete tables.
use emby_go.Base.{
  ◌≤◌, ◌≡◌, ◌≢◌, ◌⊎◌, refl, inl, inr, true, false, List, [], ◌∷◌, none, some, String, find,
  ℕ_discrete, string_discrete, arith,
}
use text.Mathlib.TextEquality.{eq_iff}
use emby_go.Accounts.Rows.{UserName, UserRow, TokenRow, KeyRow, Db, StoreError, ok, err, settle}
use emby_go.Accounts.Users.{count_other_admins, set_user_admin}
use emby_go.Accounts.Sessions.{Proof, has_key}
use emby_go.Accounts.Admin.{admin_delete_user, admit}
use emby_go.Accounts.Keys.{
  NewKey, Actor, replace_key, has_digest, has_other_digest, has_other_digest, is_current_admin,
  rotate_api_key, api_key_user,
}
use emby_go.Accounts.System.{Op, perform, run}
use emby_go.Accounts.Counts.{count_admins}
use emby_go.Accounts.Sound.{Sound, admins-run}
use emby_go.Accounts.Stale.{is_over, revoked-is_over}
use emby_go.Accounts.Admitted.{IsAdmitted, request_of, perform-IsAdmitted}
use emby_go.Accounts.Rotated.{rotate-lem}

abbrev same_name : UserName → UserName
same_name n = n

abbrev admin_row : UserRow
admin_row = record { name = 97 ∷ []; password_hash = "h1"; is_admin = true; auth_generation = 1 }

abbrev guest_row : UserRow
guest_row = record { name = 98 ∷ []; password_hash = "h2"; is_admin = false; auth_generation = 3 }

abbrev guest_session : TokenRow
guest_session = record { user_id = 2; auth_generation = 3; expires_at = none }

abbrev admin_key : KeyRow
admin_key = record { digest = "d1"; prefix = "p1"; name = "key"; user_id = 1; version = 1 }

abbrev two_users : Db
two_users = record {
  users = (1, admin_row) ∷ (2, guest_row) ∷ [];
  next_user_id = 3;
  tokens = ("t2", guest_session) ∷ [];
  keys = ("k1", admin_key) ∷ [];
  libraries = 7 ∷ [];
  user_libraries = (2, 7) ∷ [];
  userdata = [];
}

two_users-Sound : Sound two_users.users two_users.next_user_id
unfolding find count_admins ℕ_discrete
two_users-Sound = record {
  keyed = (refl, (refl, tt));
  fresh = λ id h. ground arith;
  admins = omega arith;
}

-- The administrator cannot give up the role, nor go, until another one is there.
abbrev attempts : List Op
attempts =
    Op.set_admin 1 false
    ∷ Op.create (99 ∷ []) (some "h3") true
    ∷ Op.set_admin 1 false
    ∷ Op.remove 3
    ∷ Op.remove 1
    ∷ []

last_admin_test : perform same_name (Op.set_admin 1 false) two_users ≡ err StoreError.last_admin
unfolding perform set_user_admin find ℕ_discrete count_other_admins
last_admin_test = refl

admins-run_example : 1 ≤ count_admins (run same_name attempts two_users).users
admins-run_example = admins-run same_name attempts two_users two_users-Sound

abbrev guest_proof : Proof
guest_proof = record { user_id = 2; generation = 3; credential = "t2"; is_session = true }

abbrev guest_actor : Actor
guest_actor = record { user_id = 2; generation = 3; is_admin = true }

-- The guest becomes an administrator: the generation grows, and the session of the old one stays.
abbrev promoted_guest : Db
promoted_guest = settle two_users (set_user_admin 2 true two_users)

promoted_guest_ok : set_user_admin 2 true two_users ≡ ok promoted_guest
unfolding set_user_admin settle find ℕ_discrete
promoted_guest_ok = refl

revoked-is_over_example : is_over 2 3 promoted_guest.users promoted_guest.next_user_id ≡ true
unfolding find ℕ_discrete
revoked-is_over_example =
    revoked-is_over 2 guest_row none none two_users promoted_guest refl (omega arith)
      (inr (inl promoted_guest_ok))

-- A second login and a deletion that is refused.
abbrev later_ops : List Op
later_ops = Op.log_in "t9" 2 none none ∷ Op.remove 1 ∷ []

abbrev admin_actor : Actor
admin_actor = record { user_id = 1; generation = 1; is_admin = true }

abbrev new_key : NewKey
new_key = record { digest = "d2"; prefix = "p2" }

abbrev later_key : NewKey
later_key = record { digest = "d3"; prefix = "p3" }

k1_not_k2 : ◌≢◌ {A = String} "k1" "k2"
k1_not_k2 = ground (arith, eq_iff "k1" "k2")

abbrev rotated_db : Db
rotated_db = settle two_users (rotate_api_key admin_actor "k1" 1 new_key two_users)

rotate-lem_example :
    (api_key_user "d1" rotated_db.keys ≡ none)
    × (api_key_user "d2" rotated_db.keys ≡ some 1)
    × (find string_discrete "k2" rotated_db.keys ≡ find string_discrete "k2" two_users.keys)
    × ((rotate_api_key admin_actor "k1" 1 later_key rotated_db ≡ err StoreError.key_version_stale)
        ⊎ (rotate_api_key admin_actor "k1" 1 later_key rotated_db
            ≡ err StoreError.generation_stale))
unfolding find string_discrete ℕ_discrete settle rotate_api_key replace_key is_current_admin
    has_digest has_other_digest
rotate-lem_example =
    rotate-lem admin_actor admin_actor "k1" "k2" 1 new_key later_key admin_key two_users rotated_db
      (refl, tt) refl k1_not_k2 refl refl

-- The administrator deletes the guest with an API key.
abbrev key_proof : Proof
key_proof = record { user_id = 1; generation = 1; credential = "d1"; is_session = false }

abbrev deletion : Op
deletion = Op.admin_remove 1 2 key_proof 50

perform-IsAdmitted_example : IsAdmitted 1 key_proof 50 two_users
unfolding request_of settle perform find string_discrete ℕ_discrete has_key admin_delete_user admit
perform-IsAdmitted_example =
    perform-IsAdmitted same_name deletion 1 key_proof 50 two_users
      (settle two_users (perform same_name deletion two_users)) refl refl
