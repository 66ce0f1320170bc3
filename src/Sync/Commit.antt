-- ===== src/Sync/Commit.antt =====
-- How a claimed run ends: CommitRunSuccess, CommitRunFailure and OrphanCurrentRun of
-- internal/state/syncstate.go.
use gd_sync_harness.Prelude.{
  ℕ, ◌+◌, ◌/◌, max, String, Bool, true, false, not, ◌&&◌, Option, none, some, str_eq, ltb, leb,
  get_or, if◌then◌else◌,
}
use gd_sync_harness.Db.Table.{update_where, delete_where}
use gd_sync_harness.Db.Schema.{
  Db, ProfileSyncState, Runtime, SyncRun, RunStatus, RetryClass, PendingEvent, Result, ok, err,
  not_found, running, succeeded, failed, syncing, ready, error, retryable, retryable_limited,
  terminal, finalizing,
}
use gd_sync_harness.Retry.{retry_backoff, limited_retry_backoff}
use gd_sync_harness.Sync.{update_sync, update_runtime, owes, owing_state}
use mathlib.Core.Option

-- WorkerInterruptedCode
abbrev pub worker_interrupted_code : String
worker_interrupted_code = "worker_interrupted"

abbrev pub is_running : RunStatus → Bool
is_running running = true
is_running _ = false

-- WHERE id = ? AND profile_id = ? AND status = 'running'
abbrev pub is_live_run : String → String → SyncRun → Bool
is_live_run p run_id r = str_eq r.id run_id && str_eq r.profile_id p && is_running r.status

unfoldable pub succeed_run : ℕ → SyncRun → SyncRun
succeed_run now r = record r { status = succeeded; completed_at = some now; phase = finalizing }

-- MAX(COALESCE(last_success_generation, 0), target)
abbrev pub success_through : ℕ → ProfileSyncState → ℕ
success_through target s = max (get_or 0 s.last_success_generation) target

unfoldable pub settle : ℕ → ℕ → ProfileSyncState → ProfileSyncState
settle target now s = record s {
  last_success_generation = some (success_through target s);
  initialized_at = some (get_or now s.initialized_at);
  last_success_at = some now;
  current_run_id = none;
  last_error_code = none;
  last_error = none;
  retry_classification = none;
  next_retry_at = none;
  consecutive_failures = 0;
  limited_failures = 0;
  phase = none;
  state = if leb s.desired_generation (success_through target s) then ready else syncing;
}

-- WHERE profile_id = ? AND source_generation <= ?
abbrev pub is_covered : String → ℕ → PendingEvent → Bool
is_covered p target e = str_eq e.profile_id p && leb e.source_generation target

unfoldable pub settle_runtime : ℕ → Bool → Runtime → Runtime
settle_runtime now requested r = record r {
  last_reconcile_success = some now;
  reconcile_requested = requested;
  last_error = none;
}

-- CommitRunSuccess
unfoldable pub commit_run_success : String → String → ℕ → ℕ → Db → Db
unfolding succeed_run settle settle_runtime
commit_run_success p run_id target now db =
    let db1 = record db {
      sync_runs = update_where (is_live_run p run_id) (succeed_run now) db.sync_runs;
    } in
    let db2 = update_sync p (settle target now) db1 in
    let db3 = record db2 {
      pending_events = delete_where (is_covered p target) db2.pending_events;
    } in
    let desired = get_or 0 (Option.map (λ s. s.desired_generation) (db3.sync_state p)) in
    update_runtime p (settle_runtime now (ltb target desired)) db3

-- RunFailure
pub record RunFailure : Type 0 where
  pub code : String
  pub classification : RetryClass
  pub message : String

-- Format(timeFmt): nanoseconds to the milliseconds that a timestamp keeps.
abbrev pub stamp : ℕ → ℕ
stamp ns = ns / 1000000

-- What the two conditional blocks of CommitRunFailure leave: the failure to record, the time of the
-- next attempt, and the row with its counter raised.
pub record Charge : Type 0 where
  pub failure : RunFailure
  pub next_retry : Option ℕ
  pub row : ProfileSyncState

abbrev pub limit_reached : RunFailure → RunFailure
limit_reached f = record f { code = "unknown_error_limit"; classification = terminal }

charge_retryable : RunFailure → ProfileSyncState → ℕ → ℕ → Charge
charge_retryable f s now_ns jitter =
    if str_eq f.code worker_interrupted_code
    then record { failure = f; next_retry = none; row = s }
    else (let cur = s.consecutive_failures + 1 in
        let next = stamp (now_ns + retry_backoff cur jitter) in
        record {
          failure = f;
          next_retry = some next;
          row = record s { consecutive_failures = cur; next_retry_at = some next };
        })

charge_limited : RunFailure → ProfileSyncState → ℕ → Charge
charge_limited f s now_ns =
    let cur = s.limited_failures + 1 in
    if ltb 3 cur
    then record { failure = limit_reached f; next_retry = none; row = s }
    else (let next = stamp (now_ns + limited_retry_backoff cur) in
        record {
          failure = f;
          next_retry = some next;
          row = record s { limited_failures = cur; next_retry_at = some next };
        })

charge_class : RetryClass → RunFailure → ProfileSyncState → ℕ → ℕ → Charge
charge_class retryable f s now_ns jitter = charge_retryable f s now_ns jitter
charge_class retryable_limited f s now_ns jitter = charge_limited f s now_ns
charge_class terminal f s now_ns jitter = record { failure = f; next_retry = none; row = s }

unfoldable pub charge : RunFailure → ProfileSyncState → ℕ → ℕ → Charge
unfolding charge_class charge_retryable charge_limited
charge f s now_ns jitter = charge_class f.classification f s now_ns jitter

unfoldable pub fail_run : RunFailure → ℕ → SyncRun → SyncRun
fail_run f now r = record r {
  status = failed;
  completed_at = some now;
  error_code = f.code;
  error_classification = some f.classification;
  error = f.message;
}

unfoldable pub fail_row : RunFailure → Option ℕ → ℕ → ProfileSyncState → ProfileSyncState
fail_row f next now s = record s {
  current_run_id = none;
  state = error;
  phase = none;
  last_error_code = some f.code;
  last_error = some f.message;
  retry_classification = some f.classification;
  next_retry_at = if str_eq f.code worker_interrupted_code then some now else next;
  last_heartbeat_at = some now;
}

-- A retryable failure reads its counter from the row, which must exist.
abbrev pub reads_counter : RetryClass → String → Bool
reads_counter retryable code = not (str_eq code worker_interrupted_code)
reads_counter retryable_limited code = true
reads_counter terminal code = false

unfoldable pub write_failure : String → String → RunFailure → ℕ → Db → Db
unfolding fail_run
write_failure p run_id f now db =
    update_runtime p (λ r. record r { last_error = some f.message })
      (record db { sync_runs = update_where (is_live_run p run_id) (fail_run f now) db.sync_runs })

-- The row after a failure: charged, then closed.
unfoldable pub failed_row : RunFailure → ℕ → ℕ → ProfileSyncState → ProfileSyncState
unfolding charge fail_row
failed_row f now_ns jitter s =
    let c = charge f s now_ns jitter in fail_row c.failure c.next_retry (stamp now_ns) c.row

-- CommitRunFailure; `jitter` is the random part of the back-off.
unfoldable pub commit_run_failure :
    String → String → RunFailure → ℕ → ℕ → Db → Result (Unit {0}) × Db
unfolding write_failure failed_row
commit_run_failure p run_id f now_ns jitter db = elim (db.sync_state p) [
  | none ↦
      if reads_counter f.classification f.code
      then (err not_found, db)
      else (ok tt, write_failure p run_id f (stamp now_ns) db)
  | some s ↦ (
    ok tt,
    update_sync p (failed_row f now_ns jitter)
        (write_failure p run_id (charge f s now_ns jitter).failure (stamp now_ns) db),
  )
]

-- The failure that an orphaned run is given.
abbrev pub orphaned : RunFailure
orphaned = record {
  code = worker_interrupted_code;
  classification = retryable;
  message = "worker interrupted; run orphaned on ownership reacquisition";
}

unfoldable pub orphan_row : ProfileSyncState → ProfileSyncState
orphan_row s = record s {
  current_run_id = none;
  state = if owes s then owing_state s else ready;
  phase = none;
}

-- OrphanCurrentRun
unfoldable pub orphan_current_run : String → ℕ → Db → Db
unfolding fail_run orphan_row
orphan_current_run p now db = update_sync p orphan_row (record db {
  sync_runs =
      update_where (λ r. str_eq r.profile_id p && is_running r.status) (fail_run orphaned now)
        db.sync_runs;
})
