-- ===== src/AuthGuard/Rate.antt =====
-- The rate that a token bucket of internal/server/auth_guard.go enforces.
use emby_go.Base.{
  ℕ, ◌+◌, ◌-◌, ◌*◌, ◌≤◌, ◌<◌, ◌≡◌, List, [], ◌∷◌, arith, ◌==◌, if◌then◌else◌, sym, subst, ◌∙◌,
}
use emby_go.AuthGuard.Types.{TokenBucket, token}
use emby_go.AuthGuard.Bucket.{refill, take}

-- The number of attempts that get a token, of those made at the given times.
unfoldable pub granted : TokenBucket → ℕ → ℕ → List ℕ → ℕ
unfolding take
granted b rate burst [] = 0
granted b rate burst (now ∷ later) =
    let (c, retry) = take b rate burst now in
    let rest = granted c rate burst later in if retry == 0 then rest + 1 else rest

-- Times that do not fall, from a first to a last one.
abbrev pub IsClock : ℕ → List ℕ → ℕ → Type 0
IsClock first [] last = first ≤ last
IsClock first (now ∷ later) last = (first ≤ now) × IsClock now later last

IsClock-le : (first : ℕ) (times : List ℕ) (last : ℕ) → IsClock first times last → first ≤ last
IsClock-le first [] last c = c
IsClock-le first (now ∷ later) last c = omega (arith, c.0, IsClock-le now later last c.1)

refill-le :
    (b : TokenBucket) (rate burst now : ℕ)
    → 0 < b.last
    → b.last ≤ now
    → (refill b rate burst now).tokens ≤ b.tokens + (now - b.last) * rate
unfolding refill
refill-le b rate burst now pos h = ground arith

refill-last :
    (b : TokenBucket) (rate burst now : ℕ)
    → 0 < b.last
    → b.last ≤ now
    → (refill b rate burst now).last ≡ now
unfolding refill
refill-last b rate burst now pos h = ground arith

-- One attempt pays for its token out of what the bucket held and what flowed in.
take-pays :
    (b : TokenBucket) (rate burst now : ℕ)
    → (take b rate burst now).0.tokens + (if (take b rate burst now).1 == 0 then token else 0)
      ≤ (refill b rate burst now).tokens
unfolding take
take-pays b rate burst now = ground arith

take-last :
    (b : TokenBucket) (rate burst now : ℕ)
    → (take b rate burst now).0.last ≡ (refill b rate burst now).last
unfolding take
take-last b rate burst now = ground arith

flow_split : (a b c r : ℕ) → a ≤ b → b ≤ c → (b - a) * r + (c - b) * r ≡ (c - a) * r
flow_split a b c r h k = let e : c - a ≡ b - a + (c - b) = omega arith in rw e (omega arith)

-- No client gets more attempts out of a bucket than what it held, and what has flowed in since:
-- with times that do not fall, the tokens granted are at most the tokens held at first plus the
-- elapsed time at the rate.
pub granted_bound :
    (b : TokenBucket) (rate burst last : ℕ) (times : List ℕ)
    → 0 < b.last
    → IsClock b.last times last
    → granted b rate burst times * token ≤ b.tokens + (last - b.last) * rate
unfolding granted
granted_bound b rate burst last [] pos clock = omega arith
granted_bound b rate burst last (now ∷ later) pos clock =
    let c = (take b rate burst now).0 in
    let e : c.last ≡ now = take-last b rate burst now ∙ refill-last b rate burst now pos clock.0 in
    let ends : now ≤ last = IsClock-le now later last clock.1 in
    let ih =
      granted_bound c rate burst last later (omega (arith, e))
        (subst (λ (t : ℕ). IsClock t later last) (sym e) clock.1) in
    let pays = take-pays b rate burst now in
    let grew = refill-le b rate burst now pos clock.0 in
    let sum = flow_split b.last now last rate clock.0 ends in
    let moved : granted c rate burst later * token ≤ c.tokens + (last - now) * rate =
      subst (λ (t : ℕ). granted c rate burst later * token ≤ c.tokens + (last - t) * rate) e ih in
    ground (arith, moved, pays, grew, sum)
