-- ===== src/Machine.antt =====
-- The transactions of internal/state on the rows of one profile, as the steps of one machine: what
-- the command line, the watcher and the worker (internal/cli, internal/watch) commit on the tables
-- of `Db`, in any order. `create` stands for CreateProfileWithPolicy, `dirty` for BumpGeneration,
-- and `event` for RecordEvent and RecordEventWithPolicy; the status of the watcher is not a part of
-- the model. The worker ends only the attempt that its claim returned, with the target of that
-- attempt (executeReconcileAttemptOwned in internal/cli/worker.go).
pub mod Owned
pub mod Reports
pub mod Policies
pub mod Keeps
pub mod Attempts
pub mod Lives
pub mod Frame
pub mod Reachable
pub mod Queue
pub mod Queued
pub mod Queueing
pub mod Losing
use gd_sync_harness.Prelude.{ℕ, ℤ, String, ◌≡◌, Bool, Option, none, some, List, [], ◌∷◌}
use mathlib.Core.List.{Memᴰ}
use gd_sync_harness.Db.Schema.{Db, ProfileSyncState, SyncRun, PendingEvent, EventKind, Phase}
use gd_sync_harness.Db.Ledger.{Store}
use gd_sync_harness.Sync.{
  update_runtime, request_reconcile, ensure_reconcile_generation, schedule_destructive_reconcile,
  reopen_sync_gate,
}
use gd_sync_harness.Sync.Intent.{
  ManualReconcileIntent, submit_manual_reconcile, submit_scheduled_reconcile,
}
use gd_sync_harness.Sync.Claim.{claim_run}
use gd_sync_harness.Sync.Commit.{
  RunFailure, commit_run_success, commit_run_failure, orphan_current_run,
}
use gd_sync_harness.Sync.Runs.{live_runs}
use gd_sync_harness.Events.{
  record_event, promote_to_full_reconcile, clear_pending, clear_pending_events, bump,
}
use gd_sync_harness.Lifecycle.{
  create_profile, set_profile_enabled, update_profile_fields, tombstone_profile,
  cancel_profile_deletion, request_profile_deletion, finalize_deletion, restore_profile,
  forget_profile,
}
use gd_sync_harness.Sync.Progress.{
  update_run_phase, update_run_files_discovered, update_run_heartbeat, update_run_stats,
}
use gd_sync_harness.Policy.{
  commit_ignore_snapshot, mark_policy_refresh_running, mark_policy_refresh_ready,
  mark_policy_refresh_error,
}
use gd_sync_harness.Worker.Fast.{mark_fast_success, set_last_error}

pub data Op : Type 0 where
  create : ℤ → Bool → String → ℕ → Op
  enable : Bool → Op
  edit : Bool → ℤ → Op
  tombstone : ℕ → Op
  cancel : Op
  request_deletion finalize : ℕ → Op
  restore forget : Op
  request reopen scheduled clear : Op
  ensure : ℕ → Op
  schedule promote : ℕ → ℕ → Op
  manual : ManualReconcileIntent → Op
  claim : String → ℕ → Op
  succeed : String → ℕ → ℕ → Op
  fail : String → RunFailure → ℕ → ℕ → Op
  orphan : ℕ → Op
  event : String → EventKind → Bool → String → ℕ → Op
  clear_versions : List PendingEvent → Op
  dirty : Op
  fast_done : ℕ → Op
  note_error : String → Op
  report_phase : String → Phase → ℕ → Op
  report_files : String → ℕ → ℕ → Op
  report_beat : String → ℕ → Op
  report_stats : String → Bool → ℕ → Op
  commit_policy : String → Bool → ℕ → Op
  refresh_running refresh_ready refresh_error : String → Op

-- The database part of a store.
abbrev pub bare : Db → Store
bare db = record { db = db; manifest = []; prune_requests = []; prune_targets = [] }

-- The part of CommitIgnoreSnapshot on these tables, which does not read the others.
abbrev pub policy_commit : String → String → Bool → ℕ → Db → Db
policy_commit p h accept now db = (commit_ignore_snapshot p h accept now (bare db)).1.db

unfoldable pub apply : String → Op → Db → Db
apply p (create max_delete enabled policy_hash now) db =
    (create_profile p max_delete enabled policy_hash now db).1
apply p (enable b) db = (set_profile_enabled p b db).1
apply p (edit enabled max_delete) db = update_profile_fields p enabled max_delete db
apply p (tombstone now) db = (tombstone_profile p now db).1
apply p cancel db = cancel_profile_deletion p db
apply p (request_deletion now) db = (request_profile_deletion p now db).1
apply p (finalize now) db = (finalize_deletion p now db).1
apply p restore db = restore_profile p db
apply p forget db = (forget_profile p db).1
apply p request db = request_reconcile p db
apply p reopen db = reopen_sync_gate p db
apply p scheduled db = (submit_scheduled_reconcile p db).1
apply p clear db = clear_pending p db
apply p (ensure generation) db = ensure_reconcile_generation p generation db
apply p (schedule generation now) db = schedule_destructive_reconcile p generation now db
apply p (promote generation now) db = promote_to_full_reconcile p generation now db
apply p (manual intent) db = (submit_manual_reconcile p intent db).1
apply p (claim run_id now) db = (claim_run p run_id now db).1
apply p (succeed run_id target now) db = commit_run_success p run_id target now db
apply p (fail run_id f now_ns jitter) db = (commit_run_failure p run_id f now_ns jitter db).1
apply p (orphan now) db = orphan_current_run p now db
apply p (event path kind is_full policy_hash now) db =
    (record_event p path kind is_full policy_hash now db).1
apply p (clear_versions events) db = clear_pending_events p events db
apply p dirty db = update_runtime p bump db
apply p (fast_done now) db = mark_fast_success p now db
apply p (note_error message) db = set_last_error p message db
apply p (report_phase run_id value now) db = update_run_phase p run_id value now db
apply p (report_files run_id files now) db = update_run_files_discovered p run_id files now db
apply p (report_beat run_id now) db = update_run_heartbeat p run_id now db
apply p (report_stats run_id measurable now) db = update_run_stats p run_id measurable now db
apply p (commit_policy h accept now) db = policy_commit p h accept now db
apply p (refresh_running h) db = mark_policy_refresh_running p h db
apply p (refresh_ready h) db = mark_policy_refresh_ready p h db
apply p (refresh_error h) db = mark_policy_refresh_error p h db

-- The worker holds the attempt `run_id`.
abbrev pub Holds : String → String → Db → Type 0
Holds p run_id db =
    (s : ProfileSyncState) × (db.sync_state p ≡ some s) × (s.current_run_id ≡ some run_id)

-- The attempt that it holds has the target `target`.
abbrev pub HasTarget : String → String → ℕ → Db → Type 0
HasTarget p run_id target db =
    (r : SyncRun) × Memᴰ r (live_runs p db.sync_runs)
    × (r.id ≡ run_id)
    × (r.target_generation ≡ target)

abbrev pub Allowed : String → Op → Db → Type 0
Allowed p (succeed run_id target now) db = Holds p run_id db × HasTarget p run_id target db
Allowed p (fail run_id f now_ns jitter) db = Holds p run_id db
Allowed p _ db = Unit

abbrev pub empty : Db
empty = record {
  profiles = λ p. none;
  sync_state = λ p. none;
  runtime = λ p. none;
  policy = λ p. none;
  sync_runs = [];
  pending_events = [];
}

pub data Reach : Db → Type 0 where
  start : Reach empty
  next : {db : Db} (p : String) (op : Op) → Reach db → Allowed p op db → Reach (apply p op db)
