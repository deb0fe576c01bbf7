-- ===== src/Blocklist/Policy.antt =====
-- What holds of the stored policy of blocked networks (internal/store/ip_blocklist.go).
use emby_go.Base.{
  append-nil, append_assoc, ◌≤◌, ◌≡◌, refl, Bool, true, not, ◌&&◌, ◌||◌, List, [], ◌∷◌, ◌++◌,
  String, length, arith, length-append,
}
use emby_go.Blocklist.Rules.{
  IpBlockRule, ok, Change, any_overlap, checked, is_policy, has_network, remove_last, overlapped,
  change,
}

module _ {Net : Type 0} (dec : Discrete Net) (overlaps : Net → Net → Bool) (is_safe : Net → Bool)
    (is_note : String → Bool) (overlaps_comm : (p q : Net) → overlaps p q ≡ overlaps q p) where
  abbrev pub any : Net → List (IpBlockRule Net) → Bool
  any = any_overlap dec overlaps is_safe is_note

  abbrev check : List (IpBlockRule Net) → List (IpBlockRule Net) → Bool
  check = checked dec overlaps is_safe is_note

  abbrev without : Net → List (IpBlockRule Net) → List (IpBlockRule Net)
  without = remove_last dec overlaps is_safe is_note

  pub any-append : (p : Net) (l m : List (IpBlockRule Net)) → any p (l ++ m) ≡ any p l || any p m
  unfolding any_overlap
  any-append p [] m = refl
  any-append p (r ∷ l) m = ground (arith, any-append p l m)

  any-overlapped :
      (p : Net) (l : List (IpBlockRule Net)) → overlapped dec overlaps is_safe is_note p l ≡ any p l
  unfolding any_overlap overlapped
  any-overlapped p [] = refl
  any-overlapped p (r ∷ l) = ground (arith, any-overlapped p l, overlaps_comm r.network p)

  checked-append :
      (seen l : List (IpBlockRule Net)) (r : IpBlockRule Net)
      → check seen (l ++ (r ∷ []))
        ≡ check seen l && (is_safe r.network && is_note r.note && not (any r.network (seen ++ l)))
  unfolding checked
  checked-append seen [] r = ground (arith, append-nil seen)
  checked-append seen (q ∷ l) r =
      ground (arith, checked-append (seen ++ (q ∷ [])) l r, append_assoc seen (q ∷ []) l)

  -- A rule less before the others does not make them invalid.
  checked_less :
      (a b l : List (IpBlockRule Net)) (r : IpBlockRule Net)
      → check (a ++ (r ∷ b)) l ≡ true
      → check (a ++ b) l ≡ true
  unfolding checked any_overlap
  checked_less a b [] r h = refl
  checked_less a b (q ∷ l) r h = ground (
    arith,
    checked_less a (b ++ (q ∷ [])) l r,
    append_assoc a (r ∷ b) (q ∷ []),
    append_assoc a b (q ∷ []),
    any-append q.network a (r ∷ b),
    any-append q.network a b,
  )

  checked-remove_last :
      (p : Net) (seen l : List (IpBlockRule Net))
      → check seen l ≡ true
      → check seen (without p l) ≡ true
  unfolding checked remove_last
  checked-remove_last p seen [] h = refl
  checked-remove_last p seen (r ∷ l) h =
      ground (
        arith,
        checked-remove_last p (seen ++ (r ∷ [])) l,
        checked_less seen [] l r,
        append-nil seen,
      )

  length-remove_last : (p : Net) (l : List (IpBlockRule Net)) → length (without p l) ≤ length l
  unfolding remove_last
  length-remove_last p [] = omega arith
  length-remove_last p (r ∷ l) = ground (arith, length-remove_last p l)

  -- The rule that a change adds is one that the code let through.
  abbrev pub IsAdmitted : Change Net → Type 0
  IsAdmitted (Change.add_rule r) = (is_safe r.network ≡ true) × (is_note r.note ≡ true)
  IsAdmitted (Change.remove_rule p) = Unit {0}

  pub change-IsPolicy :
      (c : Change Net) (rules changed : List (IpBlockRule Net))
      → IsAdmitted c
      → is_policy dec overlaps is_safe is_note rules ≡ true
      → change dec overlaps is_safe is_note c rules ≡ ok changed
      → is_policy dec overlaps is_safe is_note changed ≡ true
  unfolding change is_policy
  change-IsPolicy (Change.add_rule r) rules changed (s, n) h e = ground (
    arith,
    length-append rules (r ∷ []),
    checked-append [] rules r,
    any-overlapped r.network rules,
  )
  change-IsPolicy (Change.remove_rule p) rules changed a h e =
      ground (arith, length-remove_last p rules, checked-remove_last p [] rules)

  has-append :
      (p : Net) (l : List (IpBlockRule Net)) (r : IpBlockRule Net)
      → r.network ≡ p
      → has_network dec overlaps is_safe is_note p (l ++ (r ∷ [])) ≡ true
  unfolding has_network
  has-append p [] r h = ground arith
  has-append p (q ∷ l) r h = ground (arith, has-append p l r h)

  remove_last-append :
      (p : Net) (l : List (IpBlockRule Net)) (r : IpBlockRule Net)
      → r.network ≡ p
      → without p (l ++ (r ∷ [])) ≡ l
  unfolding remove_last has_network
  remove_last-append p [] r h = ground arith
  remove_last-append p (q ∷ l) r h = ground (arith, remove_last-append p l r h, has-append p l r h)

  -- A network that was added can be removed again, and that leaves the rules that were there before.
  pub remove_added :
      (rules changed : List (IpBlockRule Net)) (r : IpBlockRule Net)
      → change dec overlaps is_safe is_note (Change.add_rule r) rules ≡ ok changed
      → change dec overlaps is_safe is_note (Change.remove_rule r.network) changed ≡ ok rules
  unfolding change
  remove_added rules changed r h =
      ground (arith, remove_last-append r.network rules r refl, has-append r.network rules r refl)
