-- ===== src/Blocklist/Attempts.antt =====
-- The attempts to change the stored policy of blocked networks, with other processes that write to it
-- at the same time (internal/store/ip_blocklist.go).
use emby_go.Base.{
  ℕ, zero, suc, ◌⊎◌, ◌≡◌, refl, inl, inr, Bool, true, false, List, [], Option, none, some, String,
  arith, Bool-cases, Option-cases,
}
use emby_go.Blocklist.Rules.{
  IpBlockRule, BlockError, Outcome, ok, refused, Change, checked, is_policy, change, decode, read,
  swap, attempts,
}
use emby_go.Blocklist.Network.{Netip, Texts, validate_note, is_safe}
use emby_go.Blocklist.Policy.{IsAdmitted, change-IsPolicy}
use emby_go.Blocklist.Apart.{is_good, is_policy-good}

pub Outcome-cases :
    {Net : Type 0} (o : Outcome Net)
    → ((e : BlockError) × (o ≡ refused e)) ⊎ ((rules : List (IpBlockRule Net)) × (o ≡ ok rules))
Outcome-cases (ok rules) = inr (rules, refl)
Outcome-cases (refused e) = inl (e, refl)

module _ {Addr Net : Type 0} (dec : Discrete Net) (netip : Netip Addr Net) (texts : Texts)
    (loopback_4 loopback_6 : Net)
    (overlaps_comm : (p q : Net) → netip.overlaps p q ≡ netip.overlaps q p) where
  abbrev pub safe : Net → Bool
  safe = is_safe netip texts loopback_4 loopback_6

  abbrev pub noted : String → Bool
  noted = validate_note texts

  abbrev pub good : List (IpBlockRule Net) → Bool
  good = is_good dec netip texts loopback_4 loopback_6 overlaps_comm

  -- A JSON value reads back as the rules that it was written for.
  module _ {Raw : Type 0} (raw_dec : Discrete Raw) (text_size : Raw → ℕ)
      (encode : List (IpBlockRule Net) → Raw) (decode_json : Raw → Option (List (IpBlockRule Net)))
      (round : (rules : List (IpBlockRule Net)) → decode_json (encode rules) ≡ some rules) where
    -- A stored value that is the text of a good policy, or no value.
    unfoldable pub is_good_text : Option Raw → Bool
    is_good_text none = true
    is_good_text (some raw) = elim (decode_json raw) [ none ↦ false | some rules ↦ good rules ]

    abbrev read_kv : Option Raw → Outcome Net
    read_kv = read dec netip.overlaps safe noted raw_dec text_size encode decode_json

    empty_policy : is_policy dec netip.overlaps safe noted [] ≡ true
    unfolding is_policy checked
    empty_policy = refl

    read-policy :
        (kv : Option Raw) (rules : List (IpBlockRule Net))
        → read_kv kv ≡ ok rules
        → is_policy dec netip.overlaps safe noted rules ≡ true
    unfolding read decode
    read-policy none rules h = ground (arith, empty_policy)
    read-policy (some raw) rules h = elim (Option-cases (decode_json raw)) [
      | inl e ↦ ground (arith, e)
      | inr (l, e) ↦ ground (arith, e)
    ]

    abbrev swap_kv : Option Raw → Raw → Option Raw → Option Raw × Bool
    swap_kv = swap dec netip.overlaps safe noted raw_dec text_size encode decode_json

    text-encode :
        (rules : List (IpBlockRule Net))
        → is_policy dec netip.overlaps safe noted rules ≡ true
        → is_good_text (some (encode rules)) ≡ true
    unfolding is_good_text
    text-encode rules h = ground (
      arith,
      round rules,
      is_policy-good dec netip texts loopback_4 loopback_6 overlaps_comm rules,
    )

    text-swap :
        (old now : Option Raw) (rules : List (IpBlockRule Net))
        → is_policy dec netip.overlaps safe noted rules ≡ true
        → is_good_text now ≡ true
        → is_good_text (swap_kv old (encode rules) now).0 ≡ true
    unfolding swap
    text-swap old none rules h g = text-encode rules h
    text-swap none (some raw) rules h g = g
    text-swap (some before) (some raw) rules h g = ground (arith, text-encode rules h)

    -- What others do leaves the text of a good policy.
    abbrev pub KeepGood : (ℕ → Option Raw → Option Raw) → Type 0
    KeepGood others =
        (n : ℕ) (kv : Option Raw) → is_good_text kv ≡ true → is_good_text (others n kv) ≡ true

    abbrev pub attempts_kv :
        ℕ
        → (ℕ → Change Net)
        → (ℕ → ℕ)
        → (ℕ → Option Raw → Option Raw)
        → Option Raw
        → Option Raw × Outcome Net
    attempts_kv = attempts dec netip.overlaps safe noted raw_dec text_size encode decode_json

    pub attempts_keep :
        (n : ℕ) (c : ℕ → Change Net) (clock : ℕ → ℕ) (others : ℕ → Option Raw → Option Raw)
        (kv : Option Raw)
        → ((now : ℕ) → IsAdmitted dec netip.overlaps safe noted overlaps_comm (c now))
        → KeepGood others
        → is_good_text kv ≡ true
        → is_good_text (attempts_kv n c clock others kv).0 ≡ true
    unfolding attempts
    attempts_keep zero c clock others kv a k h = h
    attempts_keep (suc n) c clock others kv a k h = elim (Outcome-cases (read_kv kv)) [
      | inl (e, g) ↦ ground (arith, g)
      | inr (rules, g) ↦
          elim (Outcome-cases (change dec netip.overlaps safe noted (c (clock n)) rules)) [
            | inl (e, i) ↦ ground (arith, g, i)
            | inr (changed, i) ↦
                let policy =
                  change-IsPolicy dec netip.overlaps safe noted overlaps_comm (c (clock n)) rules
                    changed (a (clock n)) (read-policy kv rules g) i in
                let written = text-swap kv (others n kv) changed policy (k n kv h) in
                let again =
                  attempts_keep n c clock others (swap_kv kv (encode changed) (others n kv)).0 a k
                    written in
                elim (Bool-cases (swap_kv kv (encode changed) (others n kv)).1) [
                  | inl w ↦ ground (arith, g, i, w, written)
                  | inr w ↦ ground (arith, g, i, w, again)
                ]
          ]
    ]

    won-swap :
        (old now : Option Raw) (new : Raw)
        → (swap_kv old new now).1 ≡ true
        → (swap_kv old new now).0 ≡ some new
    unfolding swap
    won-swap old none new h = refl
    won-swap none (some raw) new h = ground (arith, h)
    won-swap (some before) (some raw) new h = ground (arith, h)

    policy-good :
        (rules : List (IpBlockRule Net))
        → is_policy dec netip.overlaps safe noted rules ≡ true
        → good rules ≡ true
    policy-good rules h =
        ground (arith, h, is_policy-good dec netip texts loopback_4 loopback_6 overlaps_comm rules)

    pub attempts_stored :
        (n : ℕ) (c : ℕ → Change Net) (clock : ℕ → ℕ) (others : ℕ → Option Raw → Option Raw)
        (kv : Option Raw) (stored : List (IpBlockRule Net))
        → ((now : ℕ) → IsAdmitted dec netip.overlaps safe noted overlaps_comm (c now))
        → (attempts_kv n c clock others kv).1 ≡ ok stored
        → ((attempts_kv n c clock others kv).0 ≡ some (encode stored)) × (good stored ≡ true)
    unfolding attempts
    attempts_stored zero c clock others kv stored a h = ground (arith, h)
    attempts_stored (suc n) c clock others kv stored a h = elim (Outcome-cases (read_kv kv)) [
      | inl (e, g) ↦ ground (arith, g, h)
      | inr (rules, g) ↦
          elim (Outcome-cases (change dec netip.overlaps safe noted (c (clock n)) rules)) [
            | inl (e, i) ↦ ground (arith, g, i, h)
            | inr (changed, i) ↦
                let policy = policy-good changed (
                  change-IsPolicy dec netip.overlaps safe noted overlaps_comm (c (clock n)) rules
                    changed (a (clock n)) (read-policy kv rules g) i) in
                let write = swap_kv kv (encode changed) (others n kv) in
                let again = attempts_stored n c clock others write.0 stored a in
                elim (Bool-cases write.1) [
                  | inl w ↦
                      let here = won-swap kv (others n kv) (encode changed) w in
                      ground (arith, g, i, w, h, here, policy)
                  | inr w ↦ ground (arith, g, i, w, h, again)
                ]
          ]
    ]
