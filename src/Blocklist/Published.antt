-- ===== src/Blocklist/Published.antt =====
-- The snapshot of blocked networks that requests are matched against, with its counters
-- (internal/server/ip_blocklist.go).
use emby_go.Base.{ℕ, ◌+◌, Bool, true, false, List, [], ◌∷◌, Option, none, some, if◌then◌else◌, ite}
use emby_go.Blocklist.Rules.{IpBlockRule}

pub record IpBlockEntry (Net : Type 0) : Type 0 where
  pub rule : IpBlockRule Net
  pub hits : ℕ

-- `ipBlockState`; a snapshot that was never published has no entries.
pub record IpBlockState (Net : Type 0) : Type 0 where
  pub entries : List (IpBlockEntry Net)
  pub total : ℕ

-- Networks and rules can be compared; `contains` is `Prefix.Contains` (net/netip).
module _ {Net : Type 0} {Addr : Type 0} (dec : Discrete Net) (rule_dec : Discrete (IpBlockRule Net))
    (contains : Net → Addr → Bool) where
  -- `previous[network]`: of several entries of one network the last.
  unfoldable pub previous : Net → List (IpBlockEntry Net) → Option (IpBlockEntry Net)
  previous p [] = none
  previous p (e ∷ l) = elim (previous p l) [
    | some f ↦ some f
    | none ↦ ite (dec e.rule.network p) (some e) none
  ]

  unfoldable pub entry_for : List (IpBlockEntry Net) → IpBlockRule Net → IpBlockEntry Net
  unfolding previous
  entry_for old r = elim (previous r.network old) [
    | none ↦ record { rule = r; hits = 0 }
    | some e ↦ ite (rule_dec e.rule r) e (record { rule = r; hits = 0 })
  ]

  unfoldable pub entries_for :
      List (IpBlockEntry Net) → List (IpBlockRule Net) → List (IpBlockEntry Net)
  unfolding entry_for
  entries_for old [] = []
  entries_for old (r ∷ l) = entry_for old r ∷ entries_for old l

  unfoldable pub publish : List (IpBlockRule Net) → IpBlockState Net → IpBlockState Net
  unfolding entries_for
  publish rules s = record s { entries = entries_for s.entries rules }

  -- The loop over the snapshot: the first entry that contains the address is hit.
  unfoldable pub hit : Addr → List (IpBlockEntry Net) → List (IpBlockEntry Net) × Bool
  hit a [] = ([], false)
  hit a (e ∷ l) =
      let (rest, found) = hit a l in
      if contains e.rule.network a
      then (record e { hits = e.hits + 1 } ∷ l, true)
      else (e ∷ rest, found)

  -- `blocklistedIP`: whether the request is turned away; none is an address that is not valid.
  unfoldable pub blocklisted_ip : Option Addr → IpBlockState Net → IpBlockState Net × Bool
  unfolding hit
  blocklisted_ip none s = (s, false)
  blocklisted_ip (some a) s =
      let (entries, found) = hit a s.entries in
      if found then (record { entries = entries; total = s.total + 1 }, true) else (s, false)
