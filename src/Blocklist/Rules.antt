-- ===== src/Blocklist/Rules.antt =====
-- The stored policy of blocked networks (internal/store/ip_blocklist.go). The store keeps it as one
-- JSON value, which other processes can change between a read and the write that follows.
use emby_go.Base.{
  ℕ, zero, suc, Bool, true, false, not, ◌&&◌, ◌||◌, List, [], ◌∷◌, ◌++◌, Option, none, some, String,
  leb, ltb, if◌then◌else◌, length, ite,
}

abbrev pub max_ip_block_rules : ℕ
max_ip_block_rules = 256

abbrev pub max_config_bytes : ℕ
max_config_bytes = 131072

pub record IpBlockRule (Net : Type 0) : Type 0 where
  pub network : Net
  pub note : String
  pub created_at : ℕ

pub data BlockError : Type 0 where
  invalid_config conflict limit_reached missing bad_network unsafe bad_note contended : BlockError

-- What a call returns: rules or an error.
pub data Outcome (Net : Type 0) : Type 0 where
  ok : List (IpBlockRule Net) → Outcome Net
  refused : BlockError → Outcome Net

-- A change of the policy: a network to add with its note and the time, or one to remove.
pub data Change (Net : Type 0) : Type 0 where
  add_rule : IpBlockRule Net → Change Net
  remove_rule : Net → Change Net

-- Networks and their overlap (net/netip), the ones that `NormalizeIPBlockNetwork` accepts, and the test
-- of a note.
module _ {Net : Type 0} (dec : Discrete Net) (overlaps : Net → Net → Bool) (is_safe : Net → Bool)
    (is_note : String → Bool) where
  unfoldable pub any_overlap : Net → List (IpBlockRule Net) → Bool
  any_overlap p [] = false
  any_overlap p (r ∷ l) = overlaps p r.network || any_overlap p l

  -- The loop of `decodeIPBlockRules`, after the rules `seen`: a rule with a network that is not safe, a
  -- bad note or an overlap with an earlier rule makes the whole value invalid. That a rule's network is
  -- written in its canonical text and that its time can be parsed belongs to the reading of the JSON
  -- text, where a rule has a network and a number for its time; and every error of the decoding is one.
  unfoldable pub checked : List (IpBlockRule Net) → List (IpBlockRule Net) → Bool
  unfolding any_overlap
  checked seen [] = true
  checked seen (r ∷ l) =
      is_safe r.network
      && is_note r.note
      && not (any_overlap r.network seen)
      && checked (seen ++ (r ∷ [])) l

  unfoldable pub is_policy : List (IpBlockRule Net) → Bool
  unfolding checked
  is_policy rules = leb (length rules) max_ip_block_rules && checked [] rules

  unfoldable pub has_network : Net → List (IpBlockRule Net) → Bool
  has_network p [] = false
  has_network p (r ∷ l) = ite (dec r.network p) true (has_network p l)

  -- The rules without the last rule of a network, whose index the loop keeps.
  unfoldable pub remove_last : Net → List (IpBlockRule Net) → List (IpBlockRule Net)
  unfolding has_network
  remove_last p [] = []
  remove_last p (r ∷ l) =
      let rest = remove_last p l in
      if has_network p l then r ∷ rest else ite (dec r.network p) l (r ∷ rest)

  -- `p.Overlaps(prefix)` for a rule that is there.
  unfoldable pub overlapped : Net → List (IpBlockRule Net) → Bool
  overlapped p [] = false
  overlapped p (r ∷ l) = overlaps r.network p || overlapped p l

  unfoldable pub change : Change Net → List (IpBlockRule Net) → Outcome Net
  unfolding overlapped remove_last
  change (Change.remove_rule p) rules =
      if has_network p rules then ok (remove_last p rules) else refused BlockError.missing
  change (Change.add_rule r) rules =
      if overlapped r.network rules
      then refused BlockError.conflict
      else if leb max_ip_block_rules (length rules)
      then refused BlockError.limit_reached
      else ok (rules ++ (r ∷ []))

  -- The text of a policy with its size in bytes (encoding/json). A text is not empty, and its times can
  -- be parsed.
  module _ {Raw : Type 0} (raw_dec : Discrete Raw) (text_size : Raw → ℕ)
      (encode : List (IpBlockRule Net) → Raw)
      (decode_json : Raw → Option (List (IpBlockRule Net))) where
    unfoldable pub decode : Raw → Outcome Net
    unfolding is_policy
    decode raw = elim (decode_json raw) [
      | none ↦ refused BlockError.invalid_config
      | some rules ↦
          if ltb max_config_bytes (text_size raw)
          then refused BlockError.invalid_config
          else if is_policy rules
          then ok rules
          else refused BlockError.invalid_config
    ]

    -- `readIPBlockRules`; a missing row is the empty policy.
    unfoldable pub read : Option Raw → Outcome Net
    unfolding decode
    read none = ok []
    read (some raw) = decode raw

    -- The INSERT … ON CONFLICT … WHERE kv.value=old, with the number of rows that it touched.
    unfoldable pub swap : Option Raw → Raw → Option Raw → Option Raw × Bool
    swap old new none = (some new, true)
    swap none new (some raw) = (some raw, false)
    swap (some before) new (some raw) = ite (raw_dec raw before) (some new, true) (some raw, false)

    -- The loop of `MutateIPBlockRules` with the attempts that are left: the clock at each attempt, for
    -- the time of the rule that it adds, and what others do to the stored value between its read and
    -- its write.
    unfoldable pub attempts :
        ℕ
        → (ℕ → Change Net)
        → (ℕ → ℕ)
        → (ℕ → Option Raw → Option Raw)
        → Option Raw
        → Option Raw × Outcome Net
    unfolding read change swap
    attempts zero c clock others kv = (kv, refused BlockError.contended)
    attempts (suc n) c clock others kv = elim (read kv) [
      | refused e ↦ (kv, refused e)
      | ok rules ↦ elim (change (c (clock n)) rules) [
        | refused e ↦ (kv, refused e)
        | ok changed ↦
            let (written, won) = swap kv (encode changed) (others n kv) in
            let again = attempts n c clock others written in
            if won then (written, ok changed) else again
      ]
    ]
