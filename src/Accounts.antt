-- ===== src/Accounts.antt =====
-- internal/store/users.go, admin_users.go, admin_credentials.go and api_key_rotation.go: accounts, login
-- sessions and API keys. `Rows` has the tables, `Users` the accounts, `Sessions` the login sessions,
-- `Admin` what an administrator does within a request, `Keys` the API keys, `System` any sequence of
-- these. `Counts` has lemmas on tables, `Kept` says how the users may change and `Changes` and
-- `AdminChanges` that each operation changes them so, `Sound` is about the administrators that stay,
-- `Stale` about what was issued under an earlier generation, `Rotated` about a key, `Admitted` about who
-- may do what an administrator does.
pub mod Rows
pub mod Users
pub mod Sessions
pub mod Admin
pub mod Keys
pub mod System
pub mod Counts
pub mod Kept
pub mod Changes
pub mod AdminChanges
pub mod Sound
pub mod Stale
pub mod Rotated
pub mod Admitted
mod Tests
