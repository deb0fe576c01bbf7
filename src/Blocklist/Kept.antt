-- ===== src/Blocklist/Kept.antt =====
-- What a change of the stored policy of blocked networks leaves behind, with other processes that write
-- to it at the same time (internal/store/ip_blocklist.go).
use emby_go.Base.{ℕ, ◌≤◌, ◌≡◌, Bool, true, false, List, Option, some, String}
use emby_go.Blocklist.Rules.{IpBlockRule, Outcome, ok, refused, Change, attempts}
use emby_go.Blocklist.Network.{Netip, Texts, validate_note, is_safe}
use emby_go.Blocklist.Mutate.{mutate, max_attempts}
use emby_go.Blocklist.Apart.{is_good}
use emby_go.Blocklist.Attempts.{is_good_text, KeepGood}

module _ {Addr Net : Type 0} (dec : Discrete Net) (netip : Netip Addr Net) (texts : Texts)
    (loopback_4 loopback_6 : Net)
    (overlaps_comm : (p q : Net) → netip.overlaps p q ≡ netip.overlaps q p) where
  abbrev safe : Net → Bool
  safe = is_safe netip texts loopback_4 loopback_6

  abbrev noted : String → Bool
  noted = validate_note texts

  abbrev good : List (IpBlockRule Net) → Bool
  good = is_good dec netip texts loopback_4 loopback_6 overlaps_comm

  -- A text without the white space at its ends (strings.TrimSpace) is valid if it was, not longer, and
  -- has no control character that it did not have. A JSON value reads back as the rules that it was
  -- written for.
  module _ {Raw : Type 0} (raw_dec : Discrete Raw) (text_size : Raw → ℕ)
      (encode : List (IpBlockRule Net) → Raw) (decode_json : Raw → Option (List (IpBlockRule Net)))
      (trim_valid : (s : String)
        → texts.valid_string s ≡ true
        → texts.valid_string (texts.trim_space s) ≡ true)
      (trim_size : (s : String) → texts.size (texts.trim_space s) ≤ texts.size s)
      (trim_control : (s : String)
        → texts.has_control s ≡ false
        → texts.has_control (texts.trim_space s) ≡ false)
      (round : (rules : List (IpBlockRule Net)) → decode_json (encode rules) ≡ some rules) where
    abbrev pub is_text : Option Raw → Bool
    is_text =
        is_good_text dec netip texts loopback_4 loopback_6 overlaps_comm raw_dec text_size encode
          decode_json round

    abbrev pub LeaveText : (ℕ → Option Raw → Option Raw) → Type 0
    LeaveText =
        KeepGood dec netip texts loopback_4 loopback_6 overlaps_comm raw_dec text_size encode
          decode_json round

    abbrev attempts_kv :
        (ℕ → Change Net)
        → (ℕ → ℕ)
        → (ℕ → Option Raw → Option Raw)
        → Option Raw
        → Option Raw × Outcome Net
    attempts_kv =
        attempts dec netip.overlaps safe noted raw_dec text_size encode decode_json max_attempts

    abbrev pub mutate_kv :
        String
        → String
        → Bool
        → (ℕ → ℕ)
        → (ℕ → Option Raw → Option Raw)
        → Option Raw
        → Option Raw × Outcome Net
    mutate_kv = mutate dec netip texts loopback_4 loopback_6 raw_dec text_size encode decode_json

    -- The rules of an outcome are what is stored, and a good policy.
    abbrev pub IsStored : Option Raw → Outcome Net → Type 0
    IsStored kv (refused e) = Unit {0}
    IsStored kv (ok rules) = (kv ≡ some (encode rules)) × (good rules ≡ true)
