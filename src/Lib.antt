-- ===== src/Lib.antt =====
-- The durable core of knowledge-sync: what its transactions on the SQLite database do to a profile.
--
-- A profile has a desired generation, raised by requests and file events, and the generation of its
-- last success; it is in debt while the first is ahead. A worker claims a run for a profile in debt,
-- and ends it with a success, a failure, or by finding it orphaned. File events either wait in a
-- queue for a fast upload or ask for a full run. An ignore policy decides which managed files stay
-- active; suppressed ones are deleted from the remote only by an authorized prune request. Leases
-- bound the operations on a remote across processes.
--
-- Files, and the code that they model:
--   Db            the rows and the statements on them (internal/state/migrate.go and the structs of
--                 internal/state). Db/Table: UPDATE, DELETE, SELECT, INSERT on a table that is a
--                 function of the profile id or a list of rows; Db/Schema: the tables of a profile;
--                 Db/Ledger: the tables of the ledger and of the prune requests.
--   Retry         internal/state/retry.go: RetryBackoff, LimitedRetryBackoff.
--   Sync          internal/state/syncstate.go and intent.go: requests (Sync, Sync/Intent), ClaimRun
--                 (Sync/Claim), CommitRunSuccess, CommitRunFailure, OrphanCurrentRun (Sync/Commit), the
--                 reports of a worker on its run (Sync/Progress).
--   Events        internal/state/events.go: RecordEvent and the queue.
--   Lifecycle     internal/state/profiles.go, and finalizeDeletions of internal/cli/worker.go.
--   Machine       the transactions on these tables as the steps of one machine, in any order and on any
--                 profiles: what the command line, the watcher and the worker commit, the reports of a
--                 run (Machine/Reports) and the commits of a policy (Machine/Policies) included. The
--                 worker ends only the run that it holds, with the target of that run.
--   Manifest      internal/state/manifest.go; ClassifyDisappearances and ApplyManagedRefresh of
--                 internal/state/policy.go.
--   Prune         internal/state/prune.go, prune_batch.go, prune_discovery.go (Prune/Unmanaged);
--                 Prune/Orders is their machine, with the commits of a policy, the deletes of
--                 ForgetProfile, and any change of the other tables.
--   Policy        CommitIgnoreSnapshot and the refresh marks of internal/state/policy.go.
--   Reconcile     reconcileProtected of internal/sync/reconcile.go, with its preflight and the
--                 deletions on the remote (internal/sync/service.go).
--   Derived       internal/state/compiler.go: the compiler's state of a profile, and the claims and
--                 ends of the runs that publish or purge its derived namespace.
--   Paths         the checks of relative paths (internal/source/eligibility.go,
--                 internal/namespace/derived.go, internal/cli/pruneworker.go), with path.Clean.
--   Worker        internal/cli/worker.go: classifyError and its neighbours; Worker/Attempt:
--                 executeReconcileAttemptOwned, which composes the transactions of Sync, Manifest and
--                 Policy with the reconciliation; Worker/Fast: internal/cli/fastupsert.go;
--                 Worker/PrunePass: runAuthorizedPrune of internal/cli/pruneworker.go;
--                 Worker/DerivedPass: runDerivedPass.
--   Watch         internal/watch/watcher.go: the bytes of fswatch, up to a record of 2^20 bytes, which
--                 ends the reading; the flags, the window of the debounce and what it fires.
--   Activity      internal/cli/activity.go and internal/cli/checkpoint.go: the live activities, and
--                 when their telemetry is consumed for storing. A checkpoint is not written without a
--                 snapshot, and the code ignores an error of the write; neither is modelled.
--   Sorted        sort.Strings of the keys of a map.
--   Leases        internal/state/leases.go; Leases/Bound is the machine of the processes.
--   Scheduler     internal/sched/scheduler.go: the jobs that wait for a slot.
--   Live          internal/live/hub.go and throughput.go.
--   Examples      concrete data, and each theorem at a concrete input.
--
-- Correspondence. One definition stands for one function of the code and is called by its name in
-- snake case; helpers stand for single statements. A transaction is a function from the database to
-- an answer and a database; one that fails gives the database back as it was, as the rollback does.
-- Errors of SQLite itself (a full disk, a lock) are not modelled. Times are numbers of milliseconds
-- (of nanoseconds where the code adds durations before it formats them) and an argument of each
-- operation; generations, counts and sizes are natural numbers, and a count that a caller may give a
-- sign is an integer. No operation of the model multiplies or adds up to an overflow of int64 that
-- the code can reach in its lifetime, so that machine integers are not cut off. Loops run over
-- lists; the waiting loop for a lease is a sequence of turns, between which others may step.
--
-- Parameters, since their code is not in the repository: the matcher of ignore patterns, SHA-256,
-- and the random jitter of a delay.
--
-- What the file system and rclone answer to a reconciliation is an input of the model, and so is
-- whether an error is one of those that classifyError asks for. Fuel stands for three loops:
-- the ancestors of a path, which are fewer than its segments, the batches of a prune, at most as many
-- as its paths, and the digits of an exit code. A pass runs while other processes commit: what they
-- commit during the upload of a fast batch or of a derived generation is an input, too.
--
-- Not modelled: the telemetry columns of a run, the status of the watcher, the snapshot files of a policy, the order of the passes of a
-- worker under its locks, the calls of rclone, the start and the end of the fswatch process, the
-- symbolic links under which it reports, the live server, the compiler of derived notes, the command
-- line, and the launch agents, which are input and output or wait for a model of their own.
pub mod Prelude
pub mod Db
pub mod Sync
pub mod Retry
pub mod Events
pub mod Lifecycle
pub mod Machine
pub mod Leases
pub mod Manifest
pub mod Prune
pub mod Policy
pub mod Reconcile
pub mod Derived
pub mod Paths
pub mod Sorted
pub mod Watch
pub mod Activity
pub mod Worker
pub mod Scheduler
pub mod Live
pub mod Examples
