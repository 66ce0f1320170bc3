-- ===== src/Worker/Ending.antt =====
-- Every attempt ends with the charge of a failure or with the commit of a success.
use gd_sync_harness.Prelude.{
  String, ◌≡◌, refl, subst, Option, none, some, List, inl, inr, arith, Option-cases, length,
}
use gd_sync_harness.Db.Schema.{Db, Profile, SyncRun, CommittedPolicy, scanning, finalizing}
use gd_sync_harness.Db.Ledger.{Store, ManifestEntry}
use gd_sync_harness.Manifest.{manifest_apply}
use gd_sync_harness.Sync.Commit.{commit_run_success}
use gd_sync_harness.Sync.Progress.{update_run_phase, update_run_files_discovered}
use gd_sync_harness.Policy.{mark_policy_refresh_running, mark_policy_refresh_ready, mark_refresh}
use gd_sync_harness.Reconcile.{Trace, ReconcileError, reconcile_protected}
use gd_sync_harness.Worker.Rows.{
  HasRow, update_run_phase-HasRow, update_run_files-HasRow, report_phases-HasRow, reconcile-HasRow,
}
use gd_sync_harness.Worker.{ExecError}
use gd_sync_harness.Worker.Attempt.{
  Inputs, Outcome, success, commit_failure, refresh_ledger, conclude_attempt, finish_attempt,
  reconcile_attempt, error_of, code_of, refresh_if, mark_running, attempt_scanned, execute_attempt,
  proven_deletions,
}

-- The refresh of the policy leaves the rows of the reconciliation alone.
mark_refresh-HasRow :
    (p h : String) (f : CommittedPolicy → CommittedPolicy) (db : Db)
    → HasRow p db
    → HasRow p (mark_refresh p h f db)
mark_refresh-HasRow p h f db row = row

module _ (p : String) (pr : Profile) (run : SyncRun) (i : Inputs) where
  -- The last step of an attempt: the charge of a failure, or the commit of a success.
  pub data Ending (r : Store × Outcome) : Type 0 where
    failed :
        (e : ExecError) (code : String) (before : Store)
        → HasRow p before.db
        → r ≡ commit_failure p pr run i e code before
        → Ending r
    succeeded :
        (t : Trace) (entries : List ManifestEntry) (before : Store)
        → HasRow p before.db
        → r ≡ (
          record before {
            manifest = manifest_apply p entries before.manifest;
            db = commit_run_success p run.id run.target_generation i.done_at before.db;
          },
          success t,
        )
        → Ending r

  conclude-Ending :
      (t : Trace) (st : Store) → HasRow p st.db → Ending (conclude_attempt p pr run i t st)
  unfolding conclude_attempt
  conclude-Ending t st h = elim (Option-cases i.entries) [
    | inl n ↦ failed i.entries_error "manifest_refresh" st h (rw (n, conclude_attempt) refl)
    | inr (es, e) ↦ succeeded t es st h (rw (e, conclude_attempt) refl)
  ]

  refresh_if-HasRow :
      (pol : Option CommittedPolicy) (paths proven : List String) (st : Store)
      → HasRow p st.db
      → HasRow p (refresh_if p pr run i pol paths proven st).db
  unfolding refresh_ledger mark_policy_refresh_ready
  refresh_if-HasRow none paths proven st h = h
  refresh_if-HasRow (some c) paths proven st h = ground arith

  finish-Ending :
      (failure : Option ReconcileError) (pol : Option CommittedPolicy) (paths proven : List String)
      (t : Trace) (st : Store)
      → HasRow p st.db
      → Ending (finish_attempt p pr run i failure pol paths proven t st)
  unfolding finish_attempt
  finish-Ending (some e) pol paths proven t st h = failed (error_of i e) (code_of e) st h refl
  finish-Ending none pol paths proven t st h = conclude-Ending t _ (
      refresh_if-HasRow pol paths proven
        (record st { db = update_run_phase p run.id finalizing (i.phase_at finalizing) st.db })
        (update_run_phase-HasRow p run.id finalizing (i.phase_at finalizing) st.db h))

  mark_running-HasRow :
      (pol : Option CommittedPolicy) (db : Db)
      → HasRow p db
      → HasRow p (mark_running p pr run i pol db)
  unfolding mark_policy_refresh_running
  mark_running-HasRow none db h = h
  mark_running-HasRow (some c) db h = ground arith

  reconcile_attempt-HasRow :
      (proven : List String) (db : Db)
      → HasRow p db
      → HasRow p (reconcile_attempt p pr run i proven db).db
  unfolding reconcile_attempt
  reconcile_attempt-HasRow proven db h =
      reconcile-HasRow i.world p pr run.effective_max_delete proven _ (
        report_phases-HasRow p pr run i
          (reconcile_protected i.world p pr run.effective_max_delete proven db).phases db h)

  scanned-Ending :
      (paths : List String) (st : Store)
      → HasRow p st.db
      → Ending (attempt_scanned p pr run i paths st)
  unfolding attempt_scanned
  scanned-Ending paths st h =
      let counted = update_run_files_discovered p run.id (length paths) i.counted_at st.db in
      let pol = counted.policy p in
      let marked : Store = record st { db = mark_running p pr run i pol counted } in
      let proven = proven_deletions p pr run i pol paths marked in
      let t = reconcile_attempt p pr run i proven marked.db in
      finish-Ending t.error pol paths proven t (record marked { db = t.db })
        (reconcile_attempt-HasRow proven marked.db (
          mark_running-HasRow pol counted
            (update_run_files-HasRow p run.id (length paths) i.counted_at st.db h)))

  pub attempt_ends : (st : Store) → HasRow p st.db → Ending (execute_attempt p pr run i st)
  unfolding execute_attempt
  attempt_ends st h =
      let begun : Store = record st {
        db = update_run_phase p run.id scanning (i.phase_at scanning) st.db;
      } in
      let row = update_run_phase-HasRow p run.id scanning (i.phase_at scanning) st.db h in
      elim (Option-cases i.ownership) [
        | inr (x, e) ↦ failed x "ownership_validation" st h (rw (e, execute_attempt) refl)
        | inl n ↦ elim (Option-cases i.scan) [
          | inl k ↦ failed i.scan_error "local_scan" begun row (rw (n, k, execute_attempt) refl)
          | inr (paths, k) ↦
              subst Ending (rw (n, k, execute_attempt) refl) (scanned-Ending paths begun row)
        ]
      ]
