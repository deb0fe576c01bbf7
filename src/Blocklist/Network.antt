-- ===== src/Blocklist/Network.antt =====
-- What a change of the blocked networks is checked for before the policy is read: its network and its
-- note (internal/store/ip_blocklist.go). Addresses and prefixes (net/netip) and the functions on texts
-- are parameters.
use emby_go.Base.{
  ℕ, ◌-◌, Bool, true, false, not, ◌&&◌, ◌||◌, Option, none, some, String, leb, ltb, if◌then◌else◌,
}
use emby_go.Blocklist.Rules.{BlockError, Change}

-- What the code calls of net/netip. A prefix can be one that is not valid.
pub record Netip (Addr Net : Type 0) : Type 0 where
  pub parse_prefix : String → Option Net
  pub parse_addr : String → Option Addr
  pub has_zone : Addr → Bool
  pub unmap : Addr → Addr
  pub bit_len : Addr → ℕ
  pub is_4_in_6 : Addr → Bool
  pub is_unspecified : Addr → Bool
  pub prefix_from : Addr → ℕ → Net
  pub is_valid : Net → Bool
  pub addr : Net → Addr
  pub bits : Net → ℕ
  pub masked : Net → Net
  pub overlaps : Net → Net → Bool

-- What the code calls of strings, unicode/utf8 and unicode; `has_slash` is
-- `strings.Contains(raw, "/")` and `has_control` finds a control character.
pub record Texts : Type 0 where
  pub trim_space : String → String
  pub has_slash : String → Bool
  pub valid_string : String → Bool
  pub size : String → ℕ
  pub has_control : String → Bool

pub data Normalized (Net : Type 0) : Type 0 where
  normalized : Net → Normalized Net
  rejected : BlockError → Normalized Net

-- `validateIPBlockNote`
unfoldable pub validate_note : Texts → String → Bool
validate_note texts note =
    texts.valid_string note && leb (texts.size note) 200 && not (texts.has_control note)

module _ {Addr Net : Type 0} (netip : Netip Addr Net) (texts : Texts)
    (loopback_4 loopback_6 : Net) where
  -- The prefix of an address or of a range; an address with a zone gives none that is valid.
  unfoldable pub literal : String → Option Net
  literal raw =
      let of_addr : Option Addr → Option Net = λ (o : Option Addr). elim o [
        | none ↦ none
        | some a ↦
            if netip.has_zone a
            then none
            else some (netip.prefix_from (netip.unmap a) (netip.bit_len (netip.unmap a)))
      ] in
      if texts.has_slash raw then netip.parse_prefix raw else of_addr (netip.parse_addr raw)

  -- A prefix of IPv4 addresses in IPv6 as one of IPv4.
  unfoldable pub unmapped : Net → Option Net
  unmapped p =
      if netip.is_4_in_6 (netip.addr p)
      then if ltb (netip.bits p) 96
        then none
        else some (netip.prefix_from (netip.unmap (netip.addr p)) (netip.bits p - 96))
      else some p

  unfoldable pub hits_loopback : Net → Bool
  hits_loopback p = netip.overlaps loopback_4 p || netip.overlaps loopback_6 p

  -- The last two checks of `NormalizeIPBlockNetwork`.
  unfoldable pub check_range : Net → Normalized Net
  unfolding hits_loopback
  check_range p =
      if hits_loopback p
      then rejected BlockError.unsafe
      else if netip.is_unspecified (netip.addr p)
      then rejected BlockError.bad_network
      else normalized p

  -- `NormalizeIPBlockNetwork`
  unfoldable pub normalize : String → Normalized Net
  unfolding literal unmapped check_range
  normalize raw = elim (literal (texts.trim_space raw)) [
    | none ↦ rejected BlockError.bad_network
    | some p ↦
        if not (netip.is_valid p) || netip.has_zone (netip.addr p)
        then rejected BlockError.bad_network
        else elim (unmapped p) [
          | none ↦ rejected BlockError.bad_network
          | some q ↦ check_range (netip.masked q)
        ]
  ]

  -- The network of a stored rule is one that these checks let through.
  unfoldable pub is_safe : Net → Bool
  unfolding check_range
  is_safe p = elim (check_range p) [ normalized q ↦ true | rejected e ↦ false ]

  -- The change that a call asks for, at the time of an attempt.
  unfoldable pub change_of : Bool → Net → String → ℕ → Change Net
  change_of remove p note now =
      if remove
      then Change.remove_rule p
      else Change.add_rule (record { network = p; note = texts.trim_space note; created_at = now })
