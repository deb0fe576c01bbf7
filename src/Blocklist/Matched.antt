-- ===== src/Blocklist/Matched.antt =====
-- Which requests the snapshot of blocked networks turns away, and what it counts
-- (internal/server/ip_blocklist.go).
use emby_go.Base.{
  ℕ, ◌+◌, ◌≡◌, refl, ap, ap₂, ◌∙◌, inl, inr, Bool, false, ◌||◌, List, [], ◌∷◌, some, map,
  if◌then◌else◌, arith, total, Option-cases,
}
use emby_go.Blocklist.Rules.{IpBlockRule}
use emby_go.Blocklist.Published.{
  IpBlockEntry, IpBlockState, previous, entry_for, entries_for, publish, hit, blocklisted_ip,
}

module _ {Net : Type 0} {Addr : Type 0} (dec : Discrete Net) (rule_dec : Discrete (IpBlockRule Net))
    (contains : Net → Addr → Bool) where
  -- Whether some rule of a policy contains an address.
  unfoldable pub covers : Addr → List (IpBlockRule Net) → Bool
  covers a [] = false
  covers a (r ∷ l) = contains r.network a || covers a l

  abbrev pub rules_of : List (IpBlockEntry Net) → List (IpBlockRule Net)
  rules_of = map (λ (e : IpBlockEntry Net). e.rule)

  abbrev pub hits_of : List (IpBlockEntry Net) → ℕ
  hits_of = total (λ (e : IpBlockEntry Net). e.hits)

  abbrev hit_in : Addr → List (IpBlockEntry Net) → List (IpBlockEntry Net) × Bool
  hit_in = hit dec rule_dec contains

  found-hit : (a : Addr) (l : List (IpBlockEntry Net)) → (hit_in a l).1 ≡ covers a (rules_of l)
  unfolding hit covers
  found-hit a [] = refl
  found-hit a (e ∷ l) = ground (arith, found-hit a l)

  hits-hit :
      (a : Addr) (l : List (IpBlockEntry Net))
      → hits_of (hit_in a l).0 ≡ hits_of l + (if (hit_in a l).1 then 1 else 0)
  unfolding hit total
  hits-hit a [] = refl
  hits-hit a (e ∷ l) = ground (arith, hits-hit a l)

  rules-hit : (a : Addr) (l : List (IpBlockEntry Net)) → rules_of (hit_in a l).0 ≡ rules_of l
  unfolding hit
  rules-hit a [] = refl
  rules-hit a (e ∷ l) = ground (arith, rules-hit a l)

  rule-entry_for :
      (old : List (IpBlockEntry Net)) (r : IpBlockRule Net)
      → (entry_for dec rule_dec contains old r).rule ≡ r
  unfolding entry_for
  rule-entry_for old r = elim (Option-cases (previous dec rule_dec contains r.network old)) [
    | inl e ↦ ground (arith, e)
    | inr (f, e) ↦ ground (arith, e)
  ]

  rules-entries_for :
      (old : List (IpBlockEntry Net)) (rules : List (IpBlockRule Net))
      → rules_of (entries_for dec rule_dec contains old rules) ≡ rules
  unfolding entries_for
  rules-entries_for old [] = refl
  rules-entries_for old (r ∷ l) =
      ap₂ (λ (x : IpBlockRule Net) (y : List (IpBlockRule Net)). x ∷ y) (rule-entry_for old r)
        (rules-entries_for old l)

  -- A request is turned away exactly if a rule of the snapshot contains its address. Then one entry and
  -- the total count one more; otherwise neither counts. The rules stay.
  pub turned_away :
      (a : Addr) (s : IpBlockState Net)
      → ((blocklisted_ip dec rule_dec contains (some a) s).1 ≡ covers a (rules_of s.entries))
        × (hits_of (blocklisted_ip dec rule_dec contains (some a) s).0.entries
            ≡ hits_of s.entries + (if covers a (rules_of s.entries) then 1 else 0))
        × ((blocklisted_ip dec rule_dec contains (some a) s).0.total
            ≡ s.total + (if covers a (rules_of s.entries) then 1 else 0))
        × (rules_of (blocklisted_ip dec rule_dec contains (some a) s).0.entries
            ≡ rules_of s.entries)
  unfolding blocklisted_ip
  turned_away a s =
      ground (arith, found-hit a s.entries, hits-hit a s.entries, rules-hit a s.entries)

  -- After a policy is published, a request is turned away exactly if a rule of that policy contains its
  -- address, whatever was published before.
  pub published_decides :
      (rules : List (IpBlockRule Net)) (a : Addr) (s : IpBlockState Net)
      → (blocklisted_ip dec rule_dec contains (some a) (publish dec rule_dec contains rules s)).1
        ≡ covers a rules
  unfolding publish
  published_decides rules a s =
      (turned_away a (publish dec rule_dec contains rules s)).0
      ∙ ap (covers a) (rules-entries_for s.entries rules)
