-- ===== src/Blocklist/Checked.antt =====
-- That the checks of a call let through only what may be added to the policy of blocked networks
-- (internal/store/ip_blocklist.go).
use emby_go.Base.{ℕ, ◌⊎◌, ◌≡◌, ◌≤◌, refl, inl, inr, Bool, true, false, String, arith, Option-cases}
use emby_go.Blocklist.Rules.{BlockError}
use emby_go.Blocklist.Network.{
  Netip, Texts, Normalized, normalized, rejected, validate_note, literal, unmapped, check_range,
  normalize, is_safe, change_of,
}
use emby_go.Blocklist.Policy.{IsAdmitted}

pub Normalized-cases :
    {Net : Type 0} (o : Normalized Net)
    → ((e : BlockError) × (o ≡ rejected e)) ⊎ ((p : Net) × (o ≡ normalized p))
Normalized-cases (normalized p) = inr (p, refl)
Normalized-cases (rejected e) = inl (e, refl)

module _ {Addr Net : Type 0} (dec : Discrete Net) (netip : Netip Addr Net) (texts : Texts)
    (loopback_4 loopback_6 : Net)
    (overlaps_comm : (p q : Net) → netip.overlaps p q ≡ netip.overlaps q p) where
  abbrev safe : Net → Bool
  safe = is_safe netip texts loopback_4 loopback_6

  abbrev noted : String → Bool
  noted = validate_note texts

  check_range-safe :
      (p q : Net) → check_range netip texts loopback_4 loopback_6 p ≡ normalized q → safe q ≡ true
  unfolding check_range is_safe
  check_range-safe p q h = ground arith

  pub normalize-safe :
      (raw : String) (p : Net)
      → normalize netip texts loopback_4 loopback_6 raw ≡ normalized p
      → safe p ≡ true
  unfolding normalize
  normalize-safe raw p h =
      let parsed = literal netip texts loopback_4 loopback_6 (texts.trim_space raw) in
      elim (Option-cases parsed) [
        | inl e ↦ ground (arith, e)
        | inr (q, e) ↦ elim (Option-cases (unmapped netip texts loopback_4 loopback_6 q)) [
          | inl f ↦ ground (arith, e, f)
          | inr (r, f) ↦ ground (arith, e, f, check_range-safe (netip.masked r) p)
        ]
      ]

  -- A text without the white space at its ends (strings.TrimSpace) is valid if it was, not longer, and
  -- has no control character that it did not have.
  module _
      (trim_valid : (s : String)
        → texts.valid_string s ≡ true
        → texts.valid_string (texts.trim_space s) ≡ true)
      (trim_size : (s : String) → texts.size (texts.trim_space s) ≤ texts.size s)
      (trim_control : (s : String)
        → texts.has_control s ≡ false
        → texts.has_control (texts.trim_space s) ≡ false) where
    note-trimmed : (s : String) → noted s ≡ true → noted (texts.trim_space s) ≡ true
    unfolding validate_note
    note-trimmed s h = ground (arith, trim_valid s, trim_size s, trim_control s)

    pub change_of-IsAdmitted :
        (remove : Bool) (p : Net) (note : String) (now : ℕ)
        → safe p ≡ true
        → noted note ≡ true
        → IsAdmitted dec netip.overlaps safe noted overlaps_comm
            (change_of netip texts loopback_4 loopback_6 remove p note now)
    unfolding change_of
    change_of-IsAdmitted true p note now s n = tt
    change_of-IsAdmitted false p note now s n = (s, note-trimmed note n)
