-- ===== src/Blocklist.antt =====
-- internal/store/ip_blocklist.go and internal/server/ip_blocklist.go: the blocked networks. `Rules` is
-- the stored policy and its changes, `Network` what a call is checked for, `Mutate` a call; `Policy` is
-- about a change of a policy, `Apart` says what a policy is to be, `Checked` what the checks let through,
-- `Attempts` what the attempts of a call leave behind and `Kept` what a call does; `Published` is the
-- snapshot that requests are matched against, `Matched` what matching does.
pub mod Rules
pub mod Network
pub mod Mutate
pub mod Policy
pub mod Apart
pub mod Checked
pub mod Attempts
pub mod Kept
pub mod Published
pub mod Matched
mod Tests
