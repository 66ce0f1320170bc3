-- ===== src/Machine/Reachable.antt =====
-- What holds of every database that the transactions can reach, in any order and on any profiles.
use gd_sync_harness.Prelude.{String, ◌≡◌, refl, some, arith}
use gd_sync_harness.Db.Table.{select_where}
use gd_sync_harness.Db.Schema.{Db, ProfileSyncState}
use gd_sync_harness.Sync.Invariant.{IsSound}
use gd_sync_harness.Sync.Runs.{live_runs}
use gd_sync_harness.Machine.{
  Op, Allowed, Reach, start, next, apply, create, enable, edit, tombstone, cancel, request_deletion,
  finalize, restore, forget, request, reopen, scheduled, clear, ensure, schedule, promote, manual,
  claim, succeed, fail, orphan, event, clear_versions, dirty, fast_done, note_error, report_phase,
  report_files, report_beat, report_stats, commit_policy, refresh_running, refresh_ready,
  refresh_error,
}
use gd_sync_harness.Lifecycle.{update_profile_fields, tombstone_profile, cancel_profile_deletion}
use gd_sync_harness.Machine.Owned.{WellFormed, WellFormed-same, RowOk, Owned}
use gd_sync_harness.Machine.Keeps.{
  request-WellFormed, ensure_generation-WellFormed, schedule-WellFormed, reopen-WellFormed,
  promote-WellFormed, scheduled-WellFormed, manual-WellFormed,
}
use gd_sync_harness.Machine.Attempts.{
  claim-WellFormed, succeed-WellFormed, fail-WellFormed, orphan-WellFormed,
}
use gd_sync_harness.Policy.{
  mark_policy_refresh_running, mark_policy_refresh_ready, mark_policy_refresh_error,
}
use gd_sync_harness.Worker.Fast.{mark_fast_success, set_last_error}
use gd_sync_harness.Machine.Reports.{
  phase-WellFormed, discovered-WellFormed, heartbeat-WellFormed, stats-WellFormed,
}
use gd_sync_harness.Machine.Policies.{policy-WellFormed}
use gd_sync_harness.Machine.Lives.{
  event-WellFormed, clear_versions-WellFormed, clear-WellFormed, enable-WellFormed,
  request_deletion-WellFormed, finalize-WellFormed, restore-WellFormed, create-WellFormed,
  forget-WellFormed,
}

apply-WellFormed :
    (p q : String) (op : Op) (db : Db)
    → Allowed p op db
    → ((j : String) → WellFormed j db)
    → WellFormed q (apply p op db)
unfolding apply
apply-WellFormed p q (create m b h now) db a w = create-WellFormed p q m b h now db w
apply-WellFormed p q (enable b) db a w = enable-WellFormed p q b db (w q)
apply-WellFormed p q (edit b m) db a w =
    unfold update_profile_fields in
    WellFormed-same q db (update_profile_fields p b m db) refl refl (w q)
apply-WellFormed p q (tombstone now) db a w =
    WellFormed-same q db (tombstone_profile p now db).1 (unfold tombstone_profile in ground arith)
      (unfold tombstone_profile in ground arith) (w q)
apply-WellFormed p q cancel db a w =
    unfold cancel_profile_deletion in
    WellFormed-same q db (cancel_profile_deletion p db) refl refl (w q)
apply-WellFormed p q (request_deletion now) db a w = request_deletion-WellFormed p q now db (w q)
apply-WellFormed p q (finalize now) db a w = finalize-WellFormed p q now db (w q)
apply-WellFormed p q restore db a w = restore-WellFormed p q db (w q)
apply-WellFormed p q forget db a w = forget-WellFormed p q db w
apply-WellFormed p q request db a w = request-WellFormed p q db (w q)
apply-WellFormed p q reopen db a w = reopen-WellFormed p q db (w q)
apply-WellFormed p q scheduled db a w = scheduled-WellFormed p q db (w q)
apply-WellFormed p q clear db a w = clear-WellFormed p q db (w q)
apply-WellFormed p q (ensure n) db a w = ensure_generation-WellFormed p q n db (w q)
apply-WellFormed p q (schedule n now) db a w = schedule-WellFormed p q n now db (w q)
apply-WellFormed p q (promote n now) db a w = promote-WellFormed p q n now db (w q)
apply-WellFormed p q (manual i) db a w = manual-WellFormed p q i db w
apply-WellFormed p q (claim id now) db a w = claim-WellFormed p q id now db w
apply-WellFormed p q (succeed id target now) db a w =
    succeed-WellFormed p q id target now db a.0 a.1 w
apply-WellFormed p q (fail id f now_ns jitter) db a w =
    fail-WellFormed p q id f now_ns jitter db a w
apply-WellFormed p q (orphan now) db a w = orphan-WellFormed p q now db w
apply-WellFormed p q (event path kind b h now) db a w =
    event-WellFormed p q path kind b h now db (w q)
apply-WellFormed p q (clear_versions es) db a w = clear_versions-WellFormed p q es db (w q)
apply-WellFormed p q dirty db a w = w q
apply-WellFormed p q (fast_done now) db a w = unfold mark_fast_success in w q
apply-WellFormed p q (note_error message) db a w = unfold set_last_error in w q
apply-WellFormed p q (report_phase id v now) db a w = phase-WellFormed p q id v now db (w q)
apply-WellFormed p q (report_files id n now) db a w = discovered-WellFormed p q id n now db (w q)
apply-WellFormed p q (report_beat id now) db a w = heartbeat-WellFormed p q id now db (w q)
apply-WellFormed p q (report_stats id b now) db a w = stats-WellFormed p q id b now db (w q)
apply-WellFormed p q (commit_policy h accept now) db a w =
    policy-WellFormed p q h accept now db (w q)
apply-WellFormed p q (refresh_running h) db a w = unfold mark_policy_refresh_running in w q
apply-WellFormed p q (refresh_ready h) db a w = unfold mark_policy_refresh_ready in w q
apply-WellFormed p q (refresh_error h) db a w = unfold mark_policy_refresh_error in w q

Reach-WellFormed : {db : Db} → Reach db → (q : String) → WellFormed q db
unfolding live_runs select_where
Reach-WellFormed start q = refl
Reach-WellFormed (next {db} p op r a) q = apply-WellFormed p q op db a (Reach-WellFormed r)

module _ {db : Db} (reach : Reach db) (p : String) (s : ProfileSyncState)
    (row : db.sync_state p ≡ some s) where
  row_ok : RowOk (some s) (live_runs p db.sync_runs)
  row_ok = rw row at (Reach-WellFormed reach p)

  -- In every reachable database the row of a profile is sound: the last success is at most the
  -- desired generation, and so is a pending manual request; `ready` means that there is no debt;
  -- `initializing` and `syncing` say whether a run ever succeeded; an attempt is owned only where
  -- there is debt and no error; and at most three unclassified failures are counted.
  pub Reach-IsSound : IsSound s
  Reach-IsSound = row_ok.0

  -- In every reachable database the attempts of a profile that are marked running are exactly its
  -- current attempt, if it has one, and none otherwise; and the target of the current attempt is at
  -- most the desired generation.
  pub Reach-single_flight : Owned s.current_run_id s.desired_generation (live_runs p db.sync_runs)
  Reach-single_flight = row_ok.1
