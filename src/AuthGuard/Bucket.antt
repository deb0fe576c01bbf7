-- ===== src/AuthGuard/Bucket.antt =====
-- `takeLocked` of internal/server/auth_guard.go: the token bucket.
use emby_go.Base.{ℕ, ◌+◌, ◌-◌, ◌*◌, ◌/◌, ◌≤◌, ◌≡◌, arith, ltb, leb, ◌==◌, if◌then◌else◌, min}
use emby_go.AuthGuard.Types.{TokenBucket, second, millisecond, token}

-- The bucket at `now`: full if it was never used, else with what has flowed in since.
unfoldable pub refill : TokenBucket → ℕ → ℕ → ℕ → TokenBucket
refill b rate burst now =
    if b.last == 0
    then record { tokens = burst; last = now }
    else if ltb b.last now
    then record { tokens = min burst (b.tokens + (now - b.last) * rate); last = now }
    else b

-- The wait until a token is there, at least a second, rounded up to a millisecond.
unfoldable pub retry_after : ℕ → ℕ → ℕ
retry_after tokens rate =
    let ms = (token - tokens + (1_000_000 * rate - 1)) / (1_000_000 * rate) in
    (if ltb ms 1000 then 1000 else ms) * millisecond

-- The bucket after the attempt, and 0 for a token or the time to wait.
unfoldable pub take : TokenBucket → ℕ → ℕ → ℕ → TokenBucket × ℕ
unfolding refill retry_after
take b rate burst now =
    let c = refill b rate burst now in
    if leb token c.tokens
    then (record c { tokens = c.tokens - token }, 0)
    else (c, retry_after c.tokens rate)

retry_after-pos : (tokens rate : ℕ) → second ≤ retry_after tokens rate
unfolding retry_after
retry_after-pos tokens rate = ground arith

-- An attempt passes exactly when the refilled bucket holds a token, and then takes one.
pub take-granted :
    (b : TokenBucket) (rate burst now : ℕ)
    → (take b rate burst now).1 ≡ 0
    → (take b rate burst now).0.tokens + token ≡ (refill b rate burst now).tokens
unfolding take
take-granted b rate burst now h =
    ground (arith, retry_after-pos (refill b rate burst now).tokens rate)

-- A bucket never holds more than its burst.
pub take-bounded :
    (b : TokenBucket) (rate burst now : ℕ)
    → b.tokens ≤ burst
    → (take b rate burst now).0.tokens ≤ burst
unfolding take
take-bounded b rate burst now h = ground arith
