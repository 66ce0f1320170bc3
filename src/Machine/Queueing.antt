-- ===== src/Machine/Queueing.antt =====
-- What holds of the queue of pending events in every database that the transactions reach.
use gd_sync_harness.Prelude.{
  ◌≤◌, some, none, String, ◌≡◌, refl, true, false, ◌&&◌, All, All-imp, arith,
}
use gd_sync_harness.Db.Schema.{Db, Runtime, PendingEvent, EventKind}
use gd_sync_harness.Sync.{
  update_runtime, at_least_one, ensure_reconcile_generation, schedule_destructive_reconcile,
  reopen_sync_gate,
}
use gd_sync_harness.Sync.Commit.{orphan_current_run}
use gd_sync_harness.Events.{promote_to_full_reconcile, is_safe_fast_kind, is_of, is_destructive}
use gd_sync_harness.Lifecycle.{
  set_profile_enabled, update_profile_fields, tombstone_profile, cancel_profile_deletion,
  request_profile_deletion, restore_profile,
}
use gd_sync_harness.Machine.{
  Op, Reach, start, next, apply, create, enable, edit, tombstone, cancel, request_deletion,
  finalize, restore, forget, request, reopen, scheduled, clear, ensure, schedule, promote, manual,
  claim, succeed, fail, orphan, event, clear_versions, dirty, fast_done, note_error, report_phase,
  report_files, report_beat, report_stats, commit_policy, refresh_running, refresh_ready,
  refresh_error,
}
use gd_sync_harness.Sync.Progress.{
  update_run_phase, update_run_files_discovered, update_run_heartbeat, update_run_stats,
}
use gd_sync_harness.Policy.{
  mark_policy_refresh_running, mark_policy_refresh_ready, mark_policy_refresh_error,
}
use gd_sync_harness.Worker.Fast.{mark_fast_success, set_last_error}
use gd_sync_harness.Machine.Policies.{policy-QueueOk}
use gd_sync_harness.Machine.Queue.{QueueOk, QueueOk-grow, Grows-update}
use gd_sync_harness.Machine.Queued.{
  request-QueueOk, manual-QueueOk, scheduled-QueueOk, claim-QueueOk, succeed-QueueOk, fail-QueueOk,
  bump-QueueOk, collapse-QueueOk, event-QueueOk, clear_versions-QueueOk, clear-QueueOk,
  profile-QueueOk, finalize-QueueOk, create-QueueOk, forget-QueueOk,
}

safe_kind :
    (p : String) (e : PendingEvent)
    → is_safe_fast_kind e.event_kind ≡ true
    → (is_of p e && is_destructive e.event_kind) ≡ false
safe_kind p e h = ground (arith, kind_cases e.event_kind h)
  where
    kind_cases : (k : EventKind) → is_safe_fast_kind k ≡ true → is_destructive k ≡ false
    kind_cases EventKind.create h = refl
    kind_cases EventKind.modify h = refl
    kind_cases EventKind.delete h = ground arith
    kind_cases EventKind.rename h = ground arith
    kind_cases EventKind.other h = ground arith

telemetry-QueueOk :
    (p : String) (f : Runtime → Runtime) (db : Db)
    → ((r : Runtime) → r.source_generation ≤ (f r).source_generation)
    → QueueOk db
    → QueueOk (update_runtime p f db)
telemetry-QueueOk p f db up w =
    QueueOk-grow db (update_runtime p f db) (Grows-update p f db.runtime up) refl w

apply-QueueOk : (p : String) (op : Op) (db : Db) → QueueOk db → QueueOk (apply p op db)
unfolding apply
apply-QueueOk p (create m b h now) db w = create-QueueOk p m b h now db w
apply-QueueOk p (enable b) db w =
    profile-QueueOk db (set_profile_enabled p b db).1 (unfold set_profile_enabled in ground arith)
      (unfold set_profile_enabled in ground arith) w
apply-QueueOk p (edit b m) db w = unfold update_profile_fields in w
apply-QueueOk p (tombstone now) db w =
    profile-QueueOk db (tombstone_profile p now db).1 (unfold tombstone_profile in ground arith)
      (unfold tombstone_profile in ground arith) w
apply-QueueOk p cancel db w = unfold cancel_profile_deletion in w
apply-QueueOk p (request_deletion now) db w =
    profile-QueueOk db (request_profile_deletion p now db).1
      (unfold request_profile_deletion in ground arith)
      (unfold request_profile_deletion in ground arith) w
apply-QueueOk p (finalize now) db w = finalize-QueueOk p now db w
apply-QueueOk p restore db w = unfold restore_profile in w
apply-QueueOk p forget db w = forget-QueueOk p db w
apply-QueueOk p request db w = request-QueueOk p db w
apply-QueueOk p reopen db w = unfold reopen_sync_gate in w
apply-QueueOk p scheduled db w = scheduled-QueueOk p db w
apply-QueueOk p clear db w = clear-QueueOk p db w
apply-QueueOk p (ensure n) db w = unfold ensure_reconcile_generation in w
apply-QueueOk p (schedule n now) db w =
    unfold schedule_destructive_reconcile in unfold ensure_reconcile_generation in w
apply-QueueOk p (promote n now) db w =
    unfold promote_to_full_reconcile in collapse-QueueOk p (at_least_one n) now db w
apply-QueueOk p (manual i) db w = manual-QueueOk p i db w
apply-QueueOk p (claim id now) db w = claim-QueueOk p id now db w
apply-QueueOk p (succeed id target now) db w = succeed-QueueOk p id target now db w
apply-QueueOk p (fail id f now_ns jitter) db w = fail-QueueOk p id f now_ns jitter db w
apply-QueueOk p (orphan now) db w =
    profile-QueueOk db (orphan_current_run p now db) (unfold orphan_current_run in ground arith)
      (unfold orphan_current_run in ground arith) w
apply-QueueOk p (event path kind b h now) db w = event-QueueOk p path kind b h now db w
apply-QueueOk p (clear_versions es) db w = clear_versions-QueueOk p es db w
apply-QueueOk p dirty db w = bump-QueueOk p db w
apply-QueueOk p (fast_done now) db w =
    unfold mark_fast_success in
    telemetry-QueueOk p (λ r. record r { last_fast_success = some now; last_error = none }) db
      (λ r. omega arith) w
apply-QueueOk p (note_error message) db w =
    unfold set_last_error in
    telemetry-QueueOk p (λ r. record r { last_error = some message }) db (λ r. omega arith) w
apply-QueueOk p (report_phase id v now) db w = unfold update_run_phase in w
apply-QueueOk p (report_files id n now) db w = unfold update_run_files_discovered in w
apply-QueueOk p (report_beat id now) db w = unfold update_run_heartbeat in w
apply-QueueOk p (report_stats id b now) db w = unfold update_run_stats in w
apply-QueueOk p (commit_policy h accept now) db w = policy-QueueOk p h accept now db w
apply-QueueOk p (refresh_running h) db w = unfold mark_policy_refresh_running in w
apply-QueueOk p (refresh_ready h) db w = unfold mark_policy_refresh_ready in w
apply-QueueOk p (refresh_error h) db w = unfold mark_policy_refresh_error in w

-- In every reachable database each queued event is a creation or a modification, and its generation
-- is at most the source generation of its profile, which has a runtime row.
pub Reach-QueueOk : {db : Db} → Reach db → QueueOk db
Reach-QueueOk start = tt
Reach-QueueOk (next {db} p op r a) = apply-QueueOk p op db (Reach-QueueOk r)

pub Reach-queue_safe :
    {db : Db}
    → Reach db
    → (p : String) → All (λ e. (is_of p e && is_destructive e.event_kind) ≡ false) db.pending_events
Reach-queue_safe r p = All-imp _ _ _ (λ e h. safe_kind p e h.0) (Reach-QueueOk r)
