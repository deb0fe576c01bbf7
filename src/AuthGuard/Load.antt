-- ===== src/AuthGuard/Load.antt =====
-- What the operations on the failure table and on the reservations do to one key.
use emby_go.Base.{
  ℕ, ◌+◌, ◌-◌, ◌≤◌, ◌<◌, ◌≡◌, refl, ◌≢◌, ◌⊎◌, arith, if◌then◌else◌, Bool, false, none, some, Table,
  find, erase, keep, ite, find-put, find-erase, find-keep, Option-cases, inl, inr, ℕ_discrete,
}
use emby_go.AuthGuard.Types.{AuthGuard, AuthFailureEntry, FailureKey, failure_key_discrete}
use emby_go.AuthGuard.Failures.{
  count_of, reserve, release_entry, release, is_empty_key, drop_expired, bump_entry, fresh_entry,
  record_failure, KeyVerdict, pass, forget, wait, entry_verdict, retry_for_key,
}

abbrev pub Failures : Type 0
Failures = Table FailureKey AuthFailureEntry

-- 1 if the keys agree.
abbrev pub hit : FailureKey → FailureKey → ℕ
hit k q = ite (failure_key_discrete k q) 1 0

-- The same for a key that `releaseLocked` is given: the empty key releases nothing.
abbrev pub released : FailureKey → FailureKey → ℕ
released k q = if is_empty_key k then 0 else hit k q

abbrev pub failures_at : FailureKey → Failures → ℕ
failures_at q t = elim (find failure_key_discrete q t) [ none ↦ 0 | some e ↦ e.failures ]

pub count_of-reserve :
    (k q : FailureKey) (t : Table FailureKey ℕ) → count_of q (reserve k t) ≡ count_of q t + hit k q
unfolding count_of reserve
count_of-reserve k q t = ground (arith, find-put failure_key_discrete k q (count_of k t + 1) t)

count_of-release_entry :
    (k q : FailureKey) (t : Table FailureKey ℕ)
    → count_of q (release_entry k t) ≡ count_of q t - hit k q
unfolding count_of release_entry
count_of-release_entry k q t = ground (
  arith,
  find-put failure_key_discrete k q (count_of k t - 1) t,
  find-erase failure_key_discrete k q t,
)

pub count_of-release :
    (k q : FailureKey) (g : AuthGuard)
    → count_of q (release k g).inflight ≡ count_of q g.inflight - released k q
unfolding release
count_of-release k q g = ground (arith, count_of-release_entry k q g.inflight)

-- A table that only lost entries.
abbrev pub Shrinks : Failures → Failures → Type 0
Shrinks t u =
    (q : FailureKey)
    → (find failure_key_discrete q u ≡ find failure_key_discrete q t)
      ⊎ (find failure_key_discrete q u ≡ none)

pub Shrinks-trans : (t u v : Failures) → Shrinks t u → Shrinks u v → Shrinks t v
Shrinks-trans t u v a b q = ground (arith, a q, b q)

pub erase-Shrinks : (k : FailureKey) (t : Failures) → Shrinks t (erase failure_key_discrete k t)
erase-Shrinks k t q = ground (arith, find-erase failure_key_discrete k q t)

pub keep-Shrinks :
    (p : FailureKey → AuthFailureEntry → Bool) (t : Failures)
    → Shrinks t (keep failure_key_discrete p t)
keep-Shrinks p t q = ground (arith, find-keep failure_key_discrete p q t)

pub drop_expired-Shrinks :
    (k : FailureKey) (window now : ℕ) (t : Failures) → Shrinks t (drop_expired k window now t)
unfolding drop_expired
drop_expired-Shrinks k window now t q = ground (arith, erase-Shrinks k t q)

pub retry_for_key-Shrinks :
    (k : FailureKey) (limit window cooldown now : ℕ) (inflight : Table FailureKey ℕ) (t : Failures)
    → Shrinks t (retry_for_key k limit window cooldown now inflight t).0
unfolding retry_for_key
retry_for_key-Shrinks k limit window cooldown now inflight t q =
    ground (
      arith,
      drop_expired-Shrinks k window now t q,
      erase-Shrinks k (drop_expired k window now t) q,
    )

-- A cooldown starts at the limit.
abbrev pub BlockedAtLimit : ℕ → FailureKey → Failures → Type 0
BlockedAtLimit limit q t =
    (e : AuthFailureEntry)
    → find failure_key_discrete q t ≡ some e
    → e.blocked_at ≢ 0
    → limit ≤ e.failures

pub Shrinks-BlockedAtLimit :
    (limit : ℕ) (q : FailureKey) (t u : Failures)
    → Shrinks t u
    → BlockedAtLimit limit q t
    → BlockedAtLimit limit q u
Shrinks-BlockedAtLimit limit q t u s b e h n = ground (arith, s q, b e)

pub Shrinks-failures_at :
    (q : FailureKey) (t u : Failures) → Shrinks t u → failures_at q u ≤ failures_at q t
Shrinks-failures_at q t u s = ground (arith, s q)

-- After the window there is no entry.
drop_expired_live :
    (k : FailureKey) (window now : ℕ) (t : Failures) (e : AuthFailureEntry)
    → find failure_key_discrete k (drop_expired k window now t) ≡ some e
    → now < e.window_start + window
unfolding drop_expired
drop_expired_live k window now t e h = ground (arith, find-erase failure_key_discrete k k t)

-- A verdict lets an entry go on below the limit, or deletes one whose cooldown is over.
verdict_pass :
    (e : AuthFailureEntry) (n limit window cooldown now : ℕ)
    → entry_verdict e n limit window cooldown now ≡ pass
    → e.failures + n < limit
unfolding entry_verdict
verdict_pass e n limit window cooldown now h = ground arith

verdict_forget :
    (e : AuthFailureEntry) (n limit window cooldown now : ℕ)
    → entry_verdict e n limit window cooldown now ≡ forget
    → e.blocked_at ≢ 0
unfolding entry_verdict
verdict_forget e n limit window cooldown now h = ground arith

-- A wait within the window is positive.
verdict_wait :
    (e : AuthFailureEntry) (n limit window cooldown now d : ℕ)
    → entry_verdict e n limit window cooldown now ≡ wait d
    → now < e.window_start + window
    → 0 < d
unfolding entry_verdict
verdict_wait e n limit window cooldown now d h live = ground arith

-- `retryForKeyLocked` lets a key on only below its limit, reservations included.
pub retry_for_key-zero :
    (k : FailureKey) (limit window cooldown now : ℕ) (inflight : Table FailureKey ℕ) (t : Failures)
    → is_empty_key k ≡ false
    → 0 < limit
    → BlockedAtLimit limit k t
    → failures_at k t + count_of k inflight ≤ limit
    → (retry_for_key k limit window cooldown now inflight t).1 ≡ 0
    → failures_at k (retry_for_key k limit window cooldown now inflight t).0 + count_of k inflight
      < limit
unfolding retry_for_key
retry_for_key-zero k limit window cooldown now inflight t ne pos blocked within h =
    let fs = drop_expired k window now t in
    elim (Option-cases (find failure_key_discrete k fs)) [
      | inl e ↦ ground arith
      | inr (e, f) ↦
          zero_at e f (entry_verdict e (count_of k inflight) limit window cooldown now) refl
    ]
  where
    zero_at :
        (e : AuthFailureEntry)
        → find failure_key_discrete k (drop_expired k window now t) ≡ some e
        → (v : KeyVerdict) → entry_verdict e (count_of k inflight) limit window cooldown now ≡ v
        → failures_at k (retry_for_key k limit window cooldown now inflight t).0
            + count_of k inflight
          < limit
    zero_at e f pass q =
        ground (arith, verdict_pass e (count_of k inflight) limit window cooldown now)
    zero_at e f forget q = ground (
      arith,
      verdict_forget e (count_of k inflight) limit window cooldown now,
      find-erase failure_key_discrete k k (drop_expired k window now t),
      drop_expired-Shrinks k window now t k,
      blocked e,
    )
    zero_at e f (wait d) q = ground (
      arith,
      verdict_wait e (count_of k inflight) limit window cooldown now d,
      drop_expired_live k window now t e,
    )

-- A recorded failure adds at most one to its key, and nothing to another key.
pub failures_at-record_failure-le :
    (k q : FailureKey) (limit window cooldown now : ℕ) (g : AuthGuard)
    → failures_at q (record_failure k limit window cooldown now g).failures
      ≤ failures_at q g.failures + hit k q
unfolding record_failure
failures_at-record_failure-le k q limit window cooldown now g =
    let fs = drop_expired k window now g.failures in
    elim (Option-cases (find failure_key_discrete k fs)) [
      | inl e ↦ ground (
        arith,
        drop_expired-Shrinks k window now g.failures q,
        find-put failure_key_discrete k q (bump_entry (fresh_entry now) limit cooldown now) fs,
      )
      | inr (e, f) ↦ ground (
        arith,
        drop_expired-Shrinks k window now g.failures q,
        find-put failure_key_discrete k q (bump_entry e limit cooldown now) fs,
      )
    ]

pub inflight-record_failure :
    (k : FailureKey) (limit window cooldown now : ℕ) (g : AuthGuard)
    → (record_failure k limit window cooldown now g).inflight ≡ g.inflight
unfolding record_failure
inflight-record_failure k limit window cooldown now g = ground arith

pub cfg-record_failure :
    (k : FailureKey) (limit window cooldown now : ℕ) (g : AuthGuard)
    → (record_failure k limit window cooldown now g).cfg ≡ g.cfg
unfolding record_failure
cfg-record_failure k limit window cooldown now g = ground arith

bump_entry-blocked :
    (e : AuthFailureEntry) (limit low cooldown now : ℕ)
    → low ≤ limit
    → (e.blocked_at ≢ 0 → low ≤ e.failures)
    → (bump_entry e limit cooldown now).blocked_at ≢ 0
    → low ≤ (bump_entry e limit cooldown now).failures
unfolding bump_entry
bump_entry-blocked e limit low cooldown now le old n = elim (ℕ_discrete e.blocked_at 0) [
  | yes z ↦ ground arith
  | no z ↦ ground (arith, old z)
]

pub record_failure-BlockedAtLimit :
    (k q : FailureKey) (limit low window cooldown now : ℕ) (g : AuthGuard)
    → (k ≡ q → low ≤ limit)
    → BlockedAtLimit low q g.failures
    → BlockedAtLimit low q (record_failure k limit window cooldown now g).failures
unfolding record_failure
record_failure-BlockedAtLimit k q limit low window cooldown now g le old e h n =
    let fs = drop_expired k window now g.failures in
    elim (Option-cases (find failure_key_discrete k fs)) [
      | inl miss ↦ ground (
        arith,
        drop_expired-Shrinks k window now g.failures q,
        find-put failure_key_discrete k q (bump_entry (fresh_entry now) limit cooldown now) fs,
        bump_entry-blocked (fresh_entry now) limit low cooldown now,
        old e,
      )
      | inr (f, found) ↦ ground (
        arith,
        drop_expired-Shrinks k window now g.failures q,
        find-put failure_key_discrete k q (bump_entry f limit cooldown now) fs,
        bump_entry-blocked f limit low cooldown now,
        old e,
        old f,
      )
    ]
