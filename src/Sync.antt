-- ===== src/Sync.antt =====
-- Reconciliation intent: the part of internal/state/syncstate.go and intent.go that raises
-- `desired_generation`, moves the debounce window, and opens and closes the retry gate.
pub mod Intent
pub mod Claim
pub mod Commit
pub mod Requests
pub mod Invariant
pub mod Progress
pub mod Runs
pub mod Claiming
pub mod Admission
pub mod Retrying
use gd_sync_harness.Prelude.{
  ℕ, ◌+◌, max, String, Bool, true, false, ◌&&◌, Option, none, some, ltb, get_or, is_some,
  if◌then◌else◌,
}
use gd_sync_harness.Db.Table.{Table, update_row, insert_or_ignore}
use gd_sync_harness.Db.Schema.{
  Db, ProfileSyncState, Runtime, SyncState, initializing, syncing, ready, error,
}
use mathlib.Core.Option

-- HasDebt
abbrev pub has_debt : ProfileSyncState → Bool
has_debt s =
    ltb 0 s.desired_generation
    && (elim s.last_success_generation [ none ↦ true | some g ↦ ltb g s.desired_generation ])

-- IsInitialized
abbrev pub is_initialized : ProfileSyncState → Bool
is_initialized s = is_some s.initialized_at

abbrev pub update_sync : String → (ProfileSyncState → ProfileSyncState) → Db → Db
update_sync p f db = record db { sync_state = update_row p f db.sync_state }

abbrev pub update_runtime : String → (Runtime → Runtime) → Db → Db
update_runtime p f db = record db { runtime = update_row p f db.runtime }

-- The row that the columns' defaults give.
abbrev pub new_row : ℕ → ProfileSyncState
new_row desired = record {
  desired_generation = desired;
  last_success_generation = none;
  initialized_at = none;
  last_success_at = none;
  current_run_id = none;
  state = initializing;
  phase = none;
  retry_classification = none;
  consecutive_failures = 0;
  next_retry_at = none;
  last_progress_at = none;
  last_heartbeat_at = none;
  reconcile_not_before_at = none;
  reconcile_deadline_at = none;
  limited_failures = 0;
  last_error_code = none;
  last_error = none;
  pending_manual_generation = none;
  pending_manual_allow_deletes = none;
  pending_manual_bypass_debounce = false;
}

-- EnsureSyncState
unfoldable pub ensure_sync_state : String → Db → Db
ensure_sync_state p db = record db { sync_state = insert_or_ignore p (new_row 0) db.sync_state }

-- COALESCE((SELECT source_generation FROM profile_runtime WHERE profile_id = ?), 0)
abbrev pub source_generation : String → Db → ℕ
source_generation p db = get_or 0 (Option.map (λ r. r.source_generation) (db.runtime p))

-- CASE WHEN last_success_generation IS NULL THEN 'initializing' ELSE 'syncing' END
abbrev pub owing_state : ProfileSyncState → SyncState
owing_state s = if is_some s.last_success_generation then syncing else initializing

-- desired_generation > COALESCE(last_success_generation, 0)
abbrev pub owes : ProfileSyncState → Bool
owes s = ltb (get_or 0 s.last_success_generation) s.desired_generation

-- CASE WHEN state = 'error' THEN state ELSE … END
abbrev pub unless_error : SyncState → SyncState → SyncState
unless_error error t = error
unless_error _ t = t

abbrev pub request_runtime : Runtime → Runtime
request_runtime r = record r { reconcile_requested = true }

unfoldable pub request_desired : ℕ → ProfileSyncState → ProfileSyncState
request_desired source s = record s {
  desired_generation =
      max (max s.desired_generation source) (get_or 0 s.last_success_generation + 1);
}

unfoldable pub request_state : ProfileSyncState → ProfileSyncState
request_state s = record s {
  state = unless_error s.state (if owes s then owing_state s else s.state);
}

-- RequestReconcile
unfoldable pub request_reconcile : String → Db → Db
unfolding request_desired request_state ensure_sync_state
request_reconcile p db =
    let db1 = ensure_sync_state p db in
    let db2 = update_sync p (request_desired (source_generation p db1)) db1 in
    let db3 = update_runtime p request_runtime db2 in update_sync p request_state db3

-- The SET of EnsureReconcileGeneration.
unfoldable pub raise_desired : ℕ → ProfileSyncState → ProfileSyncState
raise_desired generation s = record s {
  desired_generation = max s.desired_generation generation;
  state = unless_error s.state (owing_state s);
}

abbrev pub at_least_one : ℕ → ℕ
at_least_one generation = if ltb generation 1 then 1 else generation

-- EnsureReconcileGeneration
unfoldable pub ensure_reconcile_generation : String → ℕ → Db → Db
unfolding raise_desired
ensure_reconcile_generation p generation db =
    update_sync p (raise_desired (at_least_one generation)) db

-- now.Add(10 * time.Second), now.Add(60 * time.Second)
abbrev pub debounce_ms : ℕ
debounce_ms = 10000

abbrev pub deadline_ms : ℕ
deadline_ms = 60000

-- CASE WHEN not_before IS NULL OR not_before < ? THEN ? ELSE not_before END
abbrev pub later_of : Option ℕ → ℕ → ℕ
later_of none t = t
later_of (some u) t = if ltb u t then t else u

-- The two SETs on the debounce window that every destructive intent makes.
unfoldable pub open_window : ℕ → ProfileSyncState → ProfileSyncState
open_window now s = record s {
  reconcile_not_before_at = some (later_of s.reconcile_not_before_at (now + debounce_ms));
  reconcile_deadline_at = some (get_or (now + deadline_ms) s.reconcile_deadline_at);
}

-- ScheduleDestructiveReconcile
unfoldable pub schedule_destructive_reconcile : String → ℕ → ℕ → Db → Db
unfolding ensure_reconcile_generation open_window
schedule_destructive_reconcile p generation now db =
    update_sync p (open_window now) (ensure_reconcile_generation p generation db)

-- The SET of ReopenSyncGate.
unfoldable pub reopen : ProfileSyncState → ProfileSyncState
reopen s = record s {
  retry_classification = none;
  next_retry_at = none;
  limited_failures = 0;
  reconcile_not_before_at = none;
  reconcile_deadline_at = none;
  state = if owes s then owing_state s else ready;
}

-- ReopenSyncGate
unfoldable pub reopen_sync_gate : String → Db → Db
unfolding reopen
reopen_sync_gate p db = update_sync p reopen db
