-- ===== src/AuthGuard.antt =====
-- internal/server/auth_guard.go: the budgets of the credential endpoints. `Types` has the state,
-- `Bucket` the token buckets, `Failures` the failure windows, `Tickets` the life of one credential
-- request, `Admin` what administrators and the collector do, `System` the steps of a run. `Rate` is
-- about one bucket, `Limits` about waiting, `Outcomes` about how a request ends, `Quiet`, `Load`,
-- `Budget`, `Growth`, `Invariant` and `Interleaving` about the budgets, `Memory` and `Bounded` about sizes.
pub mod Types
pub mod Bucket
pub mod Failures
pub mod Admin
pub mod Tickets
pub mod Load
pub mod Quiet
pub mod System
pub mod Rate
pub mod Budget
pub mod Growth
pub mod Invariant
pub mod Interleaving
pub mod Memory
pub mod Bounded
pub mod Outcomes
pub mod Limits
mod Tests
