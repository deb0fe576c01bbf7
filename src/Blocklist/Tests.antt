-- ===== src/Blocklist/Tests.antt =====
-- The blocked networks with numbers for networks and addresses: network n holds 10 n to 10 n + 9, and
-- two networks overlap if they are equal.
use emby_go.Base.{
  ℕ, ◌+◌, ◌*◌, ◌/◌, length, ◌≡◌, refl, Bool, true, false, ite, List, [], ◌∷◌, Option, none, some,
  String, ℕ_discrete, ◌==◌, if◌then◌else◌, string_discrete, arith,
}
use emby_go.Blocklist.Rules.{
  IpBlockRule, Outcome, ok, Change, change, attempts, overlapped, is_policy, checked, any_overlap,
  read, decode, swap,
}
use emby_go.Blocklist.Network.{
  Netip, Texts, normalize, literal, unmapped, check_range, hits_loopback, validate_note, is_safe,
  change_of,
}
use emby_go.Blocklist.Mutate.{mutate}
use emby_go.Blocklist.Policy.{remove_added}
use emby_go.Blocklist.Attempts.{is_good_text}
use emby_go.Blocklist.Published.{IpBlockState, publish, blocklisted_ip}
use emby_go.Blocklist.Matched.{covers, rules_of, hits_of, turned_away, published_decides}

abbrev rule_3 : IpBlockRule ℕ
rule_3 = record { network = 3; note = "crawler"; created_at = 100 }

abbrev every_net : ℕ → Bool
every_net p = true

abbrev every_note : String → Bool
every_note s = true

abbrev holds : ℕ → ℕ → Bool
holds p a = p == a / 10

eq_comm : (p q : ℕ) → (p == q) ≡ (q == p)
eq_comm p q = ground arith

added : change ℕ_discrete ◌==◌ every_net every_note (Change.add_rule rule_3) [] ≡ ok (rule_3 ∷ [])
unfolding change overlapped
added = refl

remove_added_example :
    change ℕ_discrete ◌==◌ every_net every_note (Change.remove_rule 3) (rule_3 ∷ []) ≡ ok []
remove_added_example =
    remove_added ℕ_discrete ◌==◌ every_net every_note eq_comm [] (rule_3 ∷ []) rule_3 added

rule_discrete : Discrete (IpBlockRule ℕ)
rule_discrete = hlevel (ℕ_discrete, string_discrete)

rules_discrete : Discrete (List (IpBlockRule ℕ))
rules_discrete = hlevel rule_discrete

-- The text of a policy is the policy itself.
abbrev as_text : List (IpBlockRule ℕ) → List (IpBlockRule ℕ)
as_text rules = rules

abbrev text_length : List (IpBlockRule ℕ) → ℕ
text_length rules = 100 * length rules

abbrev of_text : List (IpBlockRule ℕ) → Option (List (IpBlockRule ℕ))
of_text rules = some rules

-- The address "3" is the network 3; 127 and 1 are the machine itself, 0 is unspecified.
abbrev numbers : Netip ℕ ℕ
numbers = record {
  parse_prefix = λ (s : String). none;
  parse_addr = λ (s : String). ite (string_discrete s "3") (some 3) none;
  has_zone = λ (a : ℕ). false;
  unmap = λ (a : ℕ). a;
  bit_len = λ (a : ℕ). 32;
  is_4_in_6 = λ (a : ℕ). false;
  is_unspecified = λ (a : ℕ). a == 0;
  prefix_from = λ (a n : ℕ). a;
  is_valid = λ (p : ℕ). true;
  addr = λ (p : ℕ). p;
  bits = λ (p : ℕ). 32;
  masked = λ (p : ℕ). p;
  overlaps = ◌==◌;
}

-- Texts without white space at their ends, of seven bytes.
abbrev words : Texts
words = record {
  trim_space = λ (s : String). s;
  has_slash = λ (s : String). false;
  valid_string = λ (s : String). true;
  size = λ (s : String). 7;
  has_control = λ (s : String). false;
}

-- Another process writes a rule of network 4 during the first attempt.
abbrev rule_4 : IpBlockRule ℕ
rule_4 = record { network = 4; note = "scanner"; created_at = 90 }

abbrev other_writes : ℕ → Option (List (IpBlockRule ℕ)) → Option (List (IpBlockRule ℕ))
other_writes n kv = if n == 7 then some (rule_4 ∷ []) else kv

abbrev is_text : Option (List (IpBlockRule ℕ)) → Bool
is_text =
    is_good_text ℕ_discrete numbers words 127 1 eq_comm rules_discrete text_length as_text of_text
      (λ r. refl)

abbrev mutate_now : String → Bool → Option (List (IpBlockRule ℕ)) × Outcome ℕ
mutate_now network remove =
    mutate ℕ_discrete numbers words 127 1 rules_discrete text_length as_text of_text network
      "crawler" remove (λ (n : ℕ). 100) other_writes none

-- The second attempt adds to what the other process wrote.
mutated : mutate_now "3" false ≡ (some (rule_4 ∷ rule_3 ∷ []), ok (rule_4 ∷ rule_3 ∷ []))
unfolding mutate normalize literal unmapped check_range hits_loopback validate_note attempts
    change_of read decode is_policy checked any_overlap change overlapped swap is_safe
    string_discrete ℕ_discrete rules_discrete rule_discrete
mutated = refl

abbrev watched : IpBlockState ℕ
watched = record { entries = record { rule = rule_3; hits = 2 } ∷ []; total = 5 }

turned_away_example :
    ((blocklisted_ip ℕ_discrete rule_discrete holds (some 35) watched).1
      ≡ covers ℕ_discrete rule_discrete holds 35 (rule_3 ∷ []))
    × (hits_of ℕ_discrete rule_discrete holds
          (blocklisted_ip ℕ_discrete rule_discrete holds (some 35) watched).0.entries
        ≡ hits_of ℕ_discrete rule_discrete holds watched.entries
          + (if covers ℕ_discrete rule_discrete holds 35 (rule_3 ∷ []) then 1 else 0))
    × ((blocklisted_ip ℕ_discrete rule_discrete holds (some 35) watched).0.total
        ≡ 5 + (if covers ℕ_discrete rule_discrete holds 35 (rule_3 ∷ []) then 1 else 0))
    × (rules_of ℕ_discrete rule_discrete holds
          (blocklisted_ip ℕ_discrete rule_discrete holds (some 35) watched).0.entries
        ≡ rule_3 ∷ [])
turned_away_example = turned_away ℕ_discrete rule_discrete holds 35 watched

published_decides_example :
    (blocklisted_ip ℕ_discrete rule_discrete holds
      (some 35)
      (publish ℕ_discrete rule_discrete holds [] watched)).1
    ≡ covers ℕ_discrete rule_discrete holds 35 []
published_decides_example = published_decides ℕ_discrete rule_discrete holds [] 35 watched
