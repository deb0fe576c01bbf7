-- ===== src/Blocklist/Mutate.antt =====
-- `MutateIPBlockRules` (internal/store/ip_blocklist.go): the checks of the call and its eight attempts.
use emby_go.Base.{ℕ, Bool, List, Option, String, if◌then◌else◌}
use emby_go.Blocklist.Rules.{IpBlockRule, BlockError, Outcome, refused, attempts}
use emby_go.Blocklist.Network.{
  Netip, Texts, normalized, rejected, validate_note, normalize, is_safe, change_of,
}

abbrev pub max_attempts : ℕ
max_attempts = 8

module _ {Addr Net : Type 0} (dec : Discrete Net) (netip : Netip Addr Net) (texts : Texts)
    (loopback_4 loopback_6 : Net) {Raw : Type 0} (raw_dec : Discrete Raw) (text_size : Raw → ℕ)
    (encode : List (IpBlockRule Net) → Raw)
    (decode_json : Raw → Option (List (IpBlockRule Net))) where
  unfoldable pub mutate :
      String
      → String
      → Bool
      → (ℕ → ℕ)
      → (ℕ → Option Raw → Option Raw)
      → Option Raw
      → Option Raw × Outcome Net
  unfolding normalize is_safe validate_note attempts change_of
  mutate network note remove clock others kv =
      elim (normalize netip texts loopback_4 loopback_6 network) [
        | rejected e ↦ (kv, refused e)
        | normalized p ↦
            let tried =
              attempts dec netip.overlaps (is_safe netip texts loopback_4 loopback_6)
                (validate_note texts) raw_dec text_size encode decode_json max_attempts
                (change_of netip texts loopback_4 loopback_6 remove p note) clock others kv in
            if validate_note texts note then tried else (kv, refused BlockError.bad_note)
      ]
