-- ===== src/Sync/Intent.antt =====
-- internal/state/intent.go: manual and scheduled requests, and the one-attempt manual metadata.
use gd_sync_harness.Prelude.{ℕ, ℤ, pos, ◌+◌, max, String, Bool, true, false, none, some, get_or}
use gd_sync_harness.Db.Schema.{Db, ProfileSyncState, Result, ok, err, not_found}
use gd_sync_harness.Sync.{
  update_sync, update_runtime, ensure_sync_state, source_generation, owing_state, unless_error,
  request_runtime,
}

-- ManualReconcileIntent
pub record ManualReconcileIntent : Type 0 where
  pub allow_deletes : ℤ
  pub bypass_debounce : Bool

-- PendingManual
pub record PendingManual : Type 0 where
  pub generation : ℕ
  pub allow_deletes : ℤ
  pub bypass_debounce : Bool
  pub consumed : Bool

unfoldable pub clear_gate : ProfileSyncState → ProfileSyncState
clear_gate s = record s {
  retry_classification = none;
  next_retry_at = none;
  limited_failures = 0;
  reconcile_not_before_at = none;
  reconcile_deadline_at = none;
}

-- MAX(desired_generation + 1, source generation, last_success_generation + 1)
unfoldable pub advance : ℕ → ProfileSyncState → ProfileSyncState
advance source s = record s {
  desired_generation =
      max (max (s.desired_generation + 1) source) (get_or 0 s.last_success_generation + 1);
}

unfoldable pub attach : ℕ → ManualReconcileIntent → ProfileSyncState → ProfileSyncState
attach submitted intent s = record s {
  pending_manual_generation = some submitted;
  pending_manual_allow_deletes = some intent.allow_deletes;
  pending_manual_bypass_debounce = intent.bypass_debounce;
  state = unless_error s.state (owing_state s);
}

unfoldable pub mark_owing : ProfileSyncState → ProfileSyncState
mark_owing s = record s { state = unless_error s.state (owing_state s) }

-- SubmitManualReconcile
unfoldable pub submit_manual_reconcile : String → ManualReconcileIntent → Db → Result ℕ × Db
unfolding ensure_sync_state clear_gate advance attach
submit_manual_reconcile p intent db =
    let db0 = ensure_sync_state p db in
    let db1 = update_sync p clear_gate db0 in
    let db2 = update_sync p (advance (source_generation p db1)) db1 in
    elim (db2.sync_state p) [
      | none ↦ (err not_found, db0)
      | some s ↦ (
        ok s.desired_generation,
        update_runtime p request_runtime (update_sync p (attach s.desired_generation intent) db2),
      )
    ]

-- SubmitScheduledReconcile
unfoldable pub submit_scheduled_reconcile : String → Db → Result ℕ × Db
unfolding ensure_sync_state advance mark_owing
submit_scheduled_reconcile p db =
    let db0 = ensure_sync_state p db in
    let db1 = update_sync p (advance (source_generation p db0)) db0 in
    elim (db1.sync_state p) [
      | none ↦ (err not_found, db0)
      | some s ↦ (ok s.desired_generation, update_sync p mark_owing db1)
    ]

abbrev nothing_pending : PendingManual
nothing_pending = record {
  generation = 0;
  allow_deletes = pos 0;
  bypass_debounce = false;
  consumed = true;
}

-- The row of the SELECT in ReadPendingManual and readPendingManualTx.
unfoldable pub pending_of : ProfileSyncState → PendingManual
pending_of s = elim s.pending_manual_generation [
  | none ↦ nothing_pending
  | some g ↦ record {
    generation = g;
    allow_deletes = get_or (pos 0) s.pending_manual_allow_deletes;
    bypass_debounce = s.pending_manual_bypass_debounce;
    consumed = false;
  }
]

-- ReadPendingManual
unfoldable pub read_pending_manual : String → Db → PendingManual
unfolding pending_of
read_pending_manual p db = elim (db.sync_state p) [ none ↦ nothing_pending | some s ↦ pending_of s ]
