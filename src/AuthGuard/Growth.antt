-- ===== src/AuthGuard/Growth.antt =====
-- What a wrong password adds to the failure table of internal/server/auth_guard.go.
use emby_go.Base.{ℕ, ◌+◌, ◌≤◌, ◌≡◌, ◌∙◌, arith, Option, none, some, String}
use emby_go.AuthGuard.Types.{
  AuthGuard, FailureKey, ip_key, account_key, combo_key, auth_account_failure_limit,
  auth_combo_failure_limit, auth_ip_failure_limit, auth_ip_failure_window, auth_account_key,
  auth_combo_key,
}
use emby_go.AuthGuard.Failures.{is_empty_key, record_failure}
use emby_go.AuthGuard.Tickets.{count_ip, count_password, count_account}
use emby_go.AuthGuard.Load.{
  hit, failures_at, BlockedAtLimit, failures_at-record_failure-le, inflight-record_failure,
  record_failure-BlockedAtLimit,
}
use emby_go.AuthGuard.Budget.{Reserved, account_limit, combo_limit, weight}

-- What a recorded failure keeps of a key's budget, and adds to it.
pub record Grows (q : FailureKey) (limit n : ℕ) (g h : AuthGuard) : Type 0 where
  pub more : failures_at q h.failures ≤ failures_at q g.failures + n
  pub same : h.inflight ≡ g.inflight
  pub blocked : BlockedAtLimit limit q g.failures → BlockedAtLimit limit q h.failures

Grows-trans :
    (q : FailureKey) (limit n m : ℕ) (g h k : AuthGuard)
    → Grows q limit n g h
    → Grows q limit m h k
    → Grows q limit (n + m) g k
Grows-trans q limit n m g h k a b = record {
  more = omega (arith, a.more, b.more);
  same = b.same ∙ a.same;
  blocked = λ old. b.blocked (a.blocked old);
}

record_failure-Grows :
    (k q : FailureKey) (limit low window cooldown now : ℕ) (g : AuthGuard)
    → (k ≡ q → low ≤ limit)
    → Grows q low (hit k q) g (record_failure k limit window cooldown now g)
record_failure-Grows k q limit low window cooldown now g le = record {
  more = failures_at-record_failure-le k q limit window cooldown now g;
  same = inflight-record_failure k limit window cooldown now g;
  blocked = record_failure-BlockedAtLimit k q limit low window cooldown now g le;
}

count_ip-Grows :
    {q : FailureKey} {limit : ℕ} (ip : String) (now : ℕ) (g : AuthGuard)
    → Reserved q limit
    → Grows q limit (hit (ip_key ip) q) g (count_ip ip now g)
unfolding count_ip
count_ip-Grows {q} {limit} ip now g r = record { more = a.more; same = a.same; blocked = a.blocked }
  where
    low : {q : FailureKey} {limit : ℕ} → Reserved q limit → limit ≤ auth_ip_failure_limit
    low (account_limit d) = omega arith
    low (combo_limit i d) = omega arith

    a : Grows q limit (hit (ip_key ip) q) (count_password g) (count_ip ip now g)
    a =
        record_failure-Grows (ip_key ip) _ auth_ip_failure_limit _ auth_ip_failure_window 0 now
          (count_password g) (λ _. low r)

combo_not_account :
    (ip d d' : String)
    → combo_key ip d ≡ account_key d'
    → auth_account_failure_limit ≤ auth_combo_failure_limit
combo_not_account ip d d' e = absurd (cc e)

count_account-Grows :
    {q : FailureKey} {limit : ℕ} (ip d : String) (now : ℕ) (g : AuthGuard)
    → Reserved q limit
    → Grows q limit
        (hit (account_key d) q + hit (combo_key ip d) q)
        g
        (count_account ip (some d) now g)
unfolding count_account
count_account-Grows ip d now g (account_limit d') =
    Grows-trans _ _ _ _ g _ _
      (record_failure-Grows (account_key d) (account_key d') auth_account_failure_limit _ _ _ _ g
        (λ _. omega arith))
      (record_failure-Grows (combo_key ip d) (account_key d') auth_combo_failure_limit _ _ _ _ _
        (combo_not_account ip d d'))
count_account-Grows ip d now g (combo_limit ip' d') =
    Grows-trans _ _ _ _ g _ _
      (record_failure-Grows (account_key d) (combo_key ip' d') auth_account_failure_limit _ _ _ _ g
        (λ _. omega arith))
      (record_failure-Grows (combo_key ip d) (combo_key ip' d') auth_combo_failure_limit _ _ _ _ _
        (λ _. omega arith))

-- A wrong password adds at most one failure to each key of its ticket.
pub count_invalid-Grows :
    {q : FailureKey} {limit : ℕ} (ip : String) (account : Option String) (now : ℕ) (g : AuthGuard)
    → Reserved q limit
    → Grows q limit (weight q ip account) g (count_account ip account now (count_ip ip now g))
unfolding is_empty_key auth_account_key auth_combo_key
count_invalid-Grows {q} {limit} ip none now g r =
    let a = count_ip-Grows ip now g r in
    record {
      more = unfold count_account in omega (arith, a.more);
      same = unfold count_account in a.same;
      blocked = unfold count_account in a.blocked;
    }
count_invalid-Grows {q} {limit} ip (some d) now g r =
    let a =
      Grows-trans q limit _ _ g _ _ (count_ip-Grows ip now g r)
        (count_account-Grows ip d now (count_ip ip now g) r) in
    record { more = omega (arith, a.more); same = a.same; blocked = a.blocked }
