-- ===== src/Lib.antt =====
-- Emby-go, a media server in Go that speaks Emby's protocol: an HTTP server (internal/server) in front
-- of an SQLite store (internal/store), with an in-process cache of responses (internal/cache). The
-- development models the parts that decide something over a state of their own; each is a module with
-- the state as a record, the operations as functions by clauses that return the new state, and the
-- properties in child modules named for what they prove.
--
-- AuthGuard is internal/server/auth_guard.go, the budgets of the credential endpoints. `Types` has
-- authGuard's maps as association lists and its configuration, `Bucket` the token bucket
-- (takeLocked), `Failures` the failure windows (releaseLocked, recordFailureLocked,
-- retryForKeyLocked, rejectLogLocked), `Tickets` the life of one request (AdmitRequest,
-- AttachAccount, Finish), `Admin` the collector, Unlock and OnCredentialCommitSuccess, and `System`
-- newAuthGuard with the steps that any number of requests interleave. The mutex makes each operation
-- one step. Times are nanoseconds, and a bucket's tokens are exact, in units of 10^-12 token, where the
-- source keeps a float64. The digest of an account is a parameter.
--
-- Cache is internal/cache/cache.go: `Shard` is one shard with its LRU list, `Memory` the shards behind
-- the seeded hash. The source's map from keys to list elements is an index of that list; the hash
-- function is a parameter, for which nothing is assumed.
--
-- Accounts is internal/store/users.go, admin_users.go, admin_credentials.go, api_key_rotation.go and
-- user_libraries.go with their statements of store.go: `Rows` has the tables, `Users` the accounts,
-- `Sessions` the login sessions, `Admin` what an administrator does within a request, `Keys` the API
-- keys, and `System` any sequence of these, each one transaction that a failure rolls back.
-- InitializeAdministrator is left out: the server calls it only while there is no administrator.
-- Digests, what bcrypt makes of a password and random credentials are arguments; the times are
-- seconds.
--
-- Playback is internal/store/playback_sessions.go: `Record` is RecordPlaybackEvent with its three
-- tables, one transaction per report, and maybePrunePlaybackEvents. A failing SQL statement aborts
-- the transaction in the database and is not modelled.
--
-- LogRing is internal/logging/ring.go: `Ring` is the ring buffer behind the log page, for any capacity.
--
-- ImageCache is internal/imagecache/disk.go: `Disk` is the state and the token of a cleaning pass, `Trim`
-- the pass over a listing of the directory, with the success of a removal as a parameter.
--
-- Scheduler is internal/scheduler/scheduler.go with the rows of scheduled_tasks (internal/store/store.go)
-- that it writes: `Tasks` is the code, up to and after the call of the runner, so that `Single` can
-- interleave the runs. The cron library's parser and calendar are parameters.
--
-- Blocklist is internal/store/ip_blocklist.go and internal/server/ip_blocklist.go: `Rules` is the policy
-- that the store keeps as one value, `Network` the checks of a network and of a note, and `Mutate` a
-- change in at most eight attempts, each with what other processes do in between as an argument;
-- `Published` is the snapshot that requests are matched against. Addresses and networks (net/netip), the
-- functions on texts and the JSON text are parameters.
--
-- TaskRecords is internal/store/task_records.go: `Rows` is the table of task summaries with its
-- statements; the empty text of the error column is none.
--
-- ScanTasks is internal/server/scan_tasks.go: `Registry` is the table of background scans with the keys of
-- repeated requests and the summaries of TaskRecords, `Requests` the submission, the end of a run and
-- the status, `Calls` any sequence of these. The loop that evicts runs on fuel, the number of tasks in
-- the order, which `Room` shows to be enough.
--
-- Webhook is internal/webhook/dispatcher.go with the subscription of a sender (webhook.go beside it):
-- `Dispatch` builds the dispatcher, selects the targets of an event and puts the result together;
-- what becomes of each delivery is a parameter.
--
-- WriteTx is internal/store/write_tx.go: `Gate` is the lock of the single writer with its queue, as Go's
-- channels hand a token over, `Attempts` the transaction that is tried again, which is an argument, as
-- are the moments at which a context is done.
--
-- Monitor is internal/server/monitor.go: `Ring` has the shards of the counts by minute, the recording of a
-- request and the merging of a snapshot. Times are nanoseconds since 1970.
--
-- Base has what they share: tests into Bool, lists over the native numbers, and association tables,
-- which stand for Go's maps and for SQL tables with a key. Every other loop of the modelled code is a
-- recursion on a list or a count.
--
-- Not modelled: SQL and the schema, statements that fail in the database, the other HTTP handlers,
-- media probing, artwork, scraping and its network clients, NFO files, backup and upgrade, logging to
-- disk, and the web pages.
pub mod Base
pub mod Accounts
pub mod AuthGuard
pub mod Blocklist
pub mod Cache
pub mod ImageCache
pub mod LogRing
pub mod Monitor
pub mod Playback
pub mod ScanTasks
pub mod Scheduler
pub mod TaskRecords
pub mod Webhook
pub mod WriteTx
