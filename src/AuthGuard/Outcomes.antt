-- ===== src/AuthGuard/Outcomes.antt =====
-- What the end of a request, a committed login and an administrator change in the failure history
-- of internal/server/auth_guard.go.
use emby_go.Base.{
  ℕ, ◌≡◌, ◌≢◌, arith, if◌then◌else◌, true, none, find, erase, ite, String, not, find-erase,
  find-keep, Table,
}
use emby_go.AuthGuard.Types.{
  AuthGuard, AuthFailureEntry, AuthText, FailureKey, AuthTicket, AuthOutcome, invalid_password,
  failure_key_discrete, ip_key, account_key, combo_key, auth_account_digest,
}
use emby_go.AuthGuard.Admin.{forget_account, is_combo_of, on_credential_commit_success}
use emby_go.AuthGuard.Tickets.{finish, settle}
use emby_go.AuthGuard.Budget.{release_ticket-failures}

-- Only a wrong password touches the failure history: a request that ends in any other way leaves
-- the table of failures as it was. A request ends once: a second `Finish`, with whatever outcome
-- and at whatever time, changes neither the guard nor the ticket.
pub finish_once :
    (outcome again : AuthOutcome) (now later : ℕ) (t : AuthTicket) (g : AuthGuard)
    → let (g', t') = finish outcome now t g in
      (finish again later t' g' ≡ (g', t'))
      × (outcome ≢ invalid_password → g'.failures ≡ g.failures)
      × (t'.finished ≡ true)
unfolding finish settle
finish_once outcome again now later t g =
    (ground arith, λ other. ground (arith, release_ticket-failures t g, other), ground arith)

-- The failures that stay when an account is forgotten: every key's but the account's own and those
-- of its pairs with a source.
pub find-forget_account :
    (digest : String) (k : FailureKey) (t : Table FailureKey AuthFailureEntry)
    → find failure_key_discrete k (forget_account digest t) ≡ (
        if is_combo_of digest k
        then none
        else ite (failure_key_discrete (account_key digest) k) none (find failure_key_discrete k t))
unfolding forget_account
find-forget_account digest k t = ground (
  arith,
  find-keep failure_key_discrete (λ j _. not (is_combo_of digest j)) k
      (erase failure_key_discrete (account_key digest) t),
  find-erase failure_key_discrete (account_key digest) k t,
)

-- A committed login under a name that is not blank clears the failures of that account and of its
-- pairs with every source, and leaves those of every source, of every other account and of the
-- pairs of every other account.
pub commit_clears :
    (text : AuthText) (username : String) (g : AuthGuard) (ip other : String)
    → text.trim_space username ≢ ""
    → let h = on_credential_commit_success text username g in
      let d = auth_account_digest text (text.trim_space username) in
      (find failure_key_discrete (account_key d) h.failures ≡ none)
      × (find failure_key_discrete (combo_key ip d) h.failures ≡ none)
      × (find failure_key_discrete (ip_key ip) h.failures
          ≡ find failure_key_discrete (ip_key ip) g.failures)
      × (other ≢ d
          → (find failure_key_discrete (account_key other) h.failures
              ≡ find failure_key_discrete (account_key other) g.failures)
            × (find failure_key_discrete (combo_key ip other) h.failures
                ≡ find failure_key_discrete (combo_key ip other) g.failures))
unfolding on_credential_commit_success is_combo_of
commit_clears text username g ip other named =
    let d = auth_account_digest text (text.trim_space username) in
    (
      ground (arith, find-forget_account d (account_key d) g.failures),
      ground (arith, find-forget_account d (combo_key ip d) g.failures),
      ground (arith, find-forget_account d (ip_key ip) g.failures),
      λ ne. (
        ground (arith, find-forget_account d (account_key other) g.failures),
        ground (arith, find-forget_account d (combo_key ip other) g.failures),
      ),
    )
