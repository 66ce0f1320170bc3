-- ===== src/Machine/Frame.antt =====
-- A transaction on one profile leaves the rows of every other profile alone.
use gd_sync_harness.Prelude.{String, ◌≡◌, refl, false, List, [], ◌∷◌, str_eq, arith}
use gd_sync_harness.Db.Table.{delete_where}
use gd_sync_harness.Db.Schema.{Db, PendingEvent}
use gd_sync_harness.Sync.{
  request_reconcile, ensure_reconcile_generation, schedule_destructive_reconcile, reopen_sync_gate,
}
use gd_sync_harness.Sync.Intent.{submit_manual_reconcile, submit_scheduled_reconcile}
use gd_sync_harness.Sync.Claim.{claim_run}
use gd_sync_harness.Sync.Commit.{
  write_failure, commit_run_success, commit_run_failure, orphan_current_run,
}
use gd_sync_harness.Events.{
  record_event, promote_to_full_reconcile, clear_pending, clear_pending_events, is_version,
}
use gd_sync_harness.Lifecycle.{
  create_profile, created, set_profile_enabled, update_profile_fields, tombstone_profile,
  cancel_profile_deletion, request_profile_deletion, finalize_deletion, restore_profile,
  forget_profile,
}
use gd_sync_harness.Sync.Progress.{
  update_run_phase, update_run_files_discovered, update_run_heartbeat, update_run_stats,
}
use gd_sync_harness.Policy.{
  commit_ignore_snapshot, commit_changed, commit_writes, mark_policy_refresh_running,
  mark_policy_refresh_ready, mark_policy_refresh_error,
}
use gd_sync_harness.Worker.Fast.{mark_fast_success, set_last_error}
use gd_sync_harness.Machine.{
  Op, apply, create, enable, edit, tombstone, cancel, request_deletion, finalize, restore, forget,
  request, reopen, scheduled, clear, ensure, schedule, promote, manual, claim, succeed, fail,
  orphan, event, clear_versions, dirty, fast_done, note_error, report_phase, report_files,
  report_beat, report_stats, commit_policy, refresh_running, refresh_ready, refresh_error,
}

-- The four rows of the profile j.
abbrev pub SameRows : String → Db → Db → Type 0
SameRows j db db' =
    (db'.profiles j ≡ db.profiles j)
    × (db'.sync_state j ≡ db.sync_state j)
    × (db'.runtime j ≡ db.runtime j)
    × (db'.policy j ≡ db.policy j)

clear_versions-SameRows :
    (p j : String) (es : List PendingEvent) (db : Db) → SameRows j db (clear_pending_events p es db)
unfolding clear_pending_events
clear_versions-SameRows p j [] db = (refl, refl, refl, refl)
clear_versions-SameRows p j (e ∷ es) db =
    clear_versions-SameRows p j es
      (record db { pending_events = delete_where (is_version p e) db.pending_events })

-- Whatever transaction commits on the profile p, in whatever database, every other profile keeps its
-- own row, its reconciliation state, its runtime row and its committed policy.
apply-isolated :
    (p j : String) (op : Op) (db : Db) → str_eq p j ≡ false → SameRows j db (apply p op db)
unfolding apply
apply-isolated p j (create m b h now) db other =
    unfold create_profile in unfold created in ground arith
apply-isolated p j (enable b) db other = unfold set_profile_enabled in ground arith
apply-isolated p j (edit b m) db other = unfold update_profile_fields in ground arith
apply-isolated p j (tombstone now) db other = unfold tombstone_profile in ground arith
apply-isolated p j cancel db other = unfold cancel_profile_deletion in ground arith
apply-isolated p j (request_deletion now) db other = unfold request_profile_deletion in ground arith
apply-isolated p j (finalize now) db other = unfold finalize_deletion in ground arith
apply-isolated p j restore db other = unfold restore_profile in ground arith
apply-isolated p j forget db other = unfold forget_profile in ground arith
apply-isolated p j request db other = unfold request_reconcile in ground arith
apply-isolated p j reopen db other = unfold reopen_sync_gate in ground arith
apply-isolated p j scheduled db other = unfold submit_scheduled_reconcile in ground arith
apply-isolated p j clear db other = unfold clear_pending in ground arith
apply-isolated p j (ensure n) db other = unfold ensure_reconcile_generation in ground arith
apply-isolated p j (schedule n now) db other =
    unfold schedule_destructive_reconcile in unfold ensure_reconcile_generation in ground arith
apply-isolated p j (promote n now) db other = unfold promote_to_full_reconcile in ground arith
apply-isolated p j (manual i) db other = unfold submit_manual_reconcile in ground arith
apply-isolated p j (claim id now) db other = unfold claim_run in ground arith
apply-isolated p j (succeed id target now) db other = unfold commit_run_success in ground arith
apply-isolated p j (fail id f now_ns jitter) db other =
    unfold commit_run_failure in unfold write_failure in ground arith
apply-isolated p j (orphan now) db other = unfold orphan_current_run in ground arith
apply-isolated p j (event path kind b h now) db other = unfold record_event in ground arith
apply-isolated p j (clear_versions es) db other = clear_versions-SameRows p j es db
apply-isolated p j dirty db other = ground arith
apply-isolated p j (fast_done now) db other = unfold mark_fast_success in ground arith
apply-isolated p j (note_error message) db other = unfold set_last_error in ground arith
apply-isolated p j (report_phase id v now) db other = unfold update_run_phase in ground arith
apply-isolated p j (report_files id n now) db other =
    unfold update_run_files_discovered in ground arith
apply-isolated p j (report_beat id now) db other = unfold update_run_heartbeat in ground arith
apply-isolated p j (report_stats id b now) db other = unfold update_run_stats in ground arith
apply-isolated p j (commit_policy h accept now) db other =
    unfold commit_ignore_snapshot in unfold commit_changed in unfold commit_writes in ground arith
apply-isolated p j (refresh_running h) db other = unfold mark_policy_refresh_running in ground arith
apply-isolated p j (refresh_ready h) db other = unfold mark_policy_refresh_ready in ground arith
apply-isolated p j (refresh_error h) db other = unfold mark_policy_refresh_error in ground arith
