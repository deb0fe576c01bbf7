-- ===== src/Blocklist/Apart.antt =====
-- What a policy of blocked networks is to be, said without the order in which the code checks it
-- (internal/store/ip_blocklist.go), and that the code's test is this.
use emby_go.Base.{◌≡◌, refl, Bool, true, not, ◌&&◌, List, [], ◌∷◌, ◌++◌, String, leb, length, arith}
use emby_go.Blocklist.Rules.{IpBlockRule, any_overlap, checked, is_policy}
use emby_go.Blocklist.Network.{Netip, Texts, hits_loopback, check_range, is_safe, validate_note}
use emby_go.Blocklist.Policy.{any-append}

module _ {Addr Net : Type 0} (dec : Discrete Net) (netip : Netip Addr Net) (texts : Texts)
    (loopback_4 loopback_6 : Net)
    (overlaps_comm : (p q : Net) → netip.overlaps p q ≡ netip.overlaps q p) where
  -- A rule that does not block the machine itself, nor the unspecified address, with a note of at most
  -- 200 bytes of valid text without control characters.
  unfoldable pub is_allowed : IpBlockRule Net → Bool
  is_allowed r =
      not (netip.overlaps loopback_4 r.network)
      && not (netip.overlaps loopback_6 r.network)
      && not (netip.is_unspecified (netip.addr r.network))
      && texts.valid_string r.note
      && leb (texts.size r.note) 200
      && not (texts.has_control r.note)

  -- The network overlaps none of the rules.
  unfoldable pub is_apart : Net → List (IpBlockRule Net) → Bool
  is_apart p [] = true
  is_apart p (r ∷ l) = not (netip.overlaps p r.network) && is_apart p l

  unfoldable pub are_allowed : List (IpBlockRule Net) → Bool
  unfolding is_allowed is_apart
  are_allowed [] = true
  are_allowed (r ∷ l) = is_allowed r && is_apart r.network l && are_allowed l

  -- At most 256 rules, each of them allowed, no two of which overlap.
  unfoldable pub is_good : List (IpBlockRule Net) → Bool
  unfolding are_allowed
  is_good rules = leb (length rules) 256 && are_allowed rules

  abbrev safe : Net → Bool
  safe = is_safe netip texts loopback_4 loopback_6

  abbrev noted : String → Bool
  noted = validate_note texts

  abbrev any : Net → List (IpBlockRule Net) → Bool
  any = any_overlap dec netip.overlaps safe noted

  -- Each of the rules overlaps none of those before.
  unfoldable all_apart : List (IpBlockRule Net) → List (IpBlockRule Net) → Bool
  all_apart seen [] = true
  all_apart seen (r ∷ l) = not (any r.network seen) && all_apart seen l

  all_apart-nil : (l : List (IpBlockRule Net)) → all_apart [] l ≡ true
  unfolding all_apart any_overlap
  all_apart-nil [] = refl
  all_apart-nil (r ∷ l) = ground (arith, all_apart-nil l)

  any-one : (p : Net) (r : IpBlockRule Net) → any p (r ∷ []) ≡ netip.overlaps p r.network
  unfolding any_overlap
  any-one p r = ground arith

  all_apart-snoc :
      (seen l : List (IpBlockRule Net)) (r : IpBlockRule Net)
      → all_apart (seen ++ (r ∷ [])) l ≡ all_apart seen l && is_apart r.network l
  unfolding all_apart is_apart
  all_apart-snoc seen [] r = refl
  all_apart-snoc seen (q ∷ l) r = ground (
    arith,
    all_apart-snoc seen l r,
    any-append dec netip.overlaps safe noted overlaps_comm q.network seen (r ∷ []),
    any-one q.network r,
    overlaps_comm q.network r.network,
  )

  allowed-checks : (r : IpBlockRule Net) → safe r.network && noted r.note ≡ is_allowed r
  unfolding is_allowed is_safe check_range hits_loopback validate_note
  allowed-checks r = ground arith

  checked-allowed :
      (seen l : List (IpBlockRule Net))
      → checked dec netip.overlaps safe noted seen l ≡ are_allowed l && all_apart seen l
  unfolding checked are_allowed all_apart
  checked-allowed seen [] = refl
  checked-allowed seen (r ∷ l) =
      ground
        (arith, checked-allowed (seen ++ (r ∷ [])) l, all_apart-snoc seen l r, allowed-checks r)

  pub is_policy-good :
      (rules : List (IpBlockRule Net))
      → is_policy dec netip.overlaps safe noted rules ≡ is_good rules
  unfolding is_policy is_good
  is_policy-good rules = ground (arith, checked-allowed [] rules, all_apart-nil rules)
