-- ===== src/Worker/Attempt.antt =====
-- One claimed attempt, from the check of the ownership to its end: executeReconcileAttemptOwned,
-- commitFailure and refreshManifestOwned of internal/cli/worker.go.
--
-- What the file system, rclone and the clock give is an input, `Inputs`. The live activity that the
-- source publishes on the way is not in the database, and left out.
use gd_sync_harness.Prelude.{
  ℕ, String, Bool, true, false, not, Option, none, some, List, [], ◌∷◌, str_eq, length,
  if◌then◌else◌,
}
use gd_sync_harness.Db.Schema.{Db, Profile, SyncRun, CommittedPolicy, Phase, scanning, finalizing}
use gd_sync_harness.Db.Ledger.{Store, ManifestEntry}
use gd_sync_harness.Sync.Commit.{commit_run_success, commit_run_failure}
use gd_sync_harness.Sync.Progress.{update_run_phase, update_run_files_discovered, update_run_stats}
use gd_sync_harness.Manifest.{classify_disappearances, apply_managed_refresh, manifest_apply}
use gd_sync_harness.Policy.{mark_policy_refresh_running, mark_policy_refresh_ready}
use gd_sync_harness.Reconcile.{
  World, Trace, ReconcileError, source_unstable, delete_budget_exceeded, reconcile_protected,
}
use gd_sync_harness.Sorted.{sorted_paths}
use gd_sync_harness.Worker.{ExecError, classify_error}

-- The durable checkpoints of a phase: their time, and whether measurable progress came before.
abbrev pub Checkpoints : Type 0
Checkpoints = List (ℕ × Bool)

pub record Inputs : Type 0 where
  -- validateOwnership; none is success
  pub ownership : Option ExecError
  -- ScanActivePaths, and the error if there is one
  pub scan : Option (List String)
  pub scan_error : ExecError
  -- the matcher of the committed snapshot
  pub excluded : String → Bool
  pub world : World
  -- the error behind an outcome of the reconciliation that is no sentinel
  pub cause : ReconcileError → ExecError
  -- the scan of refreshManifestOwned, with sizes and times; none is an error
  pub entries : Option (List ManifestEntry)
  pub entries_error : ExecError
  -- the clock
  pub phase_at : Phase → ℕ
  pub checkpoints : Phase → Checkpoints
  pub counted_at : ℕ
  pub done_at : ℕ
  pub failed_at_ns : ℕ
  pub jitter : ℕ

pub data Outcome : Type 0 where
  success : Trace → Outcome
  failure : ExecError → Outcome

abbrev plain_error : ExecError
plain_error = record {
  canceled = false;
  is_source_unstable = false;
  is_budget_exceeded = false;
  ownership = none;
  exit_code = none;
  message = "";
}

-- The error of a reconciliation, and the code that commitFailure is given with it.
abbrev pub error_of : Inputs → ReconcileError → ExecError
error_of i source_unstable = record plain_error {
  is_source_unstable = true;
  message = "source changed during preflight; retry after settle";
}
error_of i delete_budget_exceeded = record plain_error {
  is_budget_exceeded = true;
  message = "delete budget exceeded; destructive sync not started";
}
error_of i e = i.cause e

abbrev pub code_of : ReconcileError → String
code_of delete_budget_exceeded = "delete_budget_exceeded"
code_of _ = "reconcile"

module _ (p : String) (pr : Profile) (run : SyncRun) (i : Inputs) where
  -- commitFailure
  unfoldable pub commit_failure : ExecError → String → Store → Store × Outcome
  commit_failure e code st = (
    record st {
      db = (commit_run_failure p run.id (classify_error e code) i.failed_at_ns i.jitter st.db).1;
    },
    failure e,
  )

  -- checkpointWrite, each time that it writes
  unfoldable pub write_checkpoints : Checkpoints → Db → Db
  write_checkpoints [] db = db
  write_checkpoints ((now, measurable) ∷ more) db =
      write_checkpoints more (update_run_stats p run.id measurable now db)

  -- The callback on the phases of a reconciliation.
  unfoldable pub report_phases : List Phase → Db → Db
  unfolding write_checkpoints
  report_phases [] db = db
  report_phases (phase ∷ phases) db = report_phases phases (
      write_checkpoints (i.checkpoints phase)
        (update_run_phase p run.id phase (i.phase_at phase) db))

  -- The committed policy has another hash than the refreshed one.
  abbrev pub has_policy_debt : CommittedPolicy → Bool
  has_policy_debt c = elim c.refreshed_policy_hash [
    | none ↦ true
    | some h ↦ not (str_eq h c.policy_hash)
  ]

  -- The refresh of the ledger, where the claim carries policy debt.
  unfoldable pub refresh_ledger : CommittedPolicy → List String → List String → Store → Store
  refresh_ledger c paths proven st = record st {
    manifest = apply_managed_refresh p c.policy_hash run.target_generation paths proven st.manifest;
    db = mark_policy_refresh_ready p c.policy_hash st.db;
  }

  abbrev pub refresh_if : Option CommittedPolicy → List String → List String → Store → Store
  refresh_if none paths proven st = st
  refresh_if (some c) paths proven st =
      if has_policy_debt c then refresh_ledger c paths proven st else st

  -- refreshManifestOwned, and what comes after it
  unfoldable pub conclude_attempt : Trace → Store → Store × Outcome
  unfolding commit_failure
  conclude_attempt t st = elim i.entries [
    | none ↦ commit_failure i.entries_error "manifest_refresh" st
    | some entries ↦ (
      record st {
        manifest = manifest_apply p entries st.manifest;
        db = commit_run_success p run.id run.target_generation i.done_at st.db;
      },
      success t,
    )
  ]

  -- From the end of the reconciliation on, with its error, if any.
  unfoldable pub finish_attempt :
      Option ReconcileError
      → Option CommittedPolicy
      → List String
      → List String
      → Trace
      → Store
      → Store × Outcome
  unfolding commit_failure conclude_attempt refresh_ledger
  finish_attempt (some e) pol paths proven t st = commit_failure (error_of i e) (code_of e) st
  finish_attempt none pol paths proven t st = conclude_attempt t (
      refresh_if pol paths proven
        (record st { db = update_run_phase p run.id finalizing (i.phase_at finalizing) st.db }))

  abbrev pub mark_running : Option CommittedPolicy → Db → Db
  mark_running none db = db
  mark_running (some c) db =
      if has_policy_debt c then mark_policy_refresh_running p c.policy_hash db else db

  -- The proven deletions, without which there is no policy.
  unfoldable pub proven_deletions : Option CommittedPolicy → List String → Store → List String
  unfolding sorted_paths
  proven_deletions none paths st = []
  proven_deletions (some c) paths st =
      sorted_paths
        (classify_disappearances p c.policy_hash i.excluded paths st.db.pending_events st.manifest)

  -- The reconciliation with its reports: the phases do not depend on the database.
  unfoldable pub reconcile_attempt : List String → Db → Trace
  unfolding report_phases
  reconcile_attempt proven db =
      let phases = (reconcile_protected i.world p pr run.effective_max_delete proven db).phases in
      reconcile_protected i.world p pr run.effective_max_delete proven (report_phases phases db)

  -- From the scan on.
  unfoldable pub attempt_scanned : List String → Store → Store × Outcome
  unfolding proven_deletions reconcile_attempt finish_attempt
  attempt_scanned paths st =
      let counted = update_run_files_discovered p run.id (length paths) i.counted_at st.db in
      let pol = counted.policy p in
      let marked = record st { db = mark_running pol counted } in
      let proven = proven_deletions pol paths marked in
      let t = reconcile_attempt proven marked.db in
      finish_attempt t.error pol paths proven t (record marked { db = t.db })

  -- executeReconcileAttemptOwned
  unfoldable pub execute_attempt : Store → Store × Outcome
  unfolding commit_failure attempt_scanned
  execute_attempt st = elim i.ownership [
    | some e ↦ commit_failure e "ownership_validation" st
    | none ↦
        let begun : Store = record st {
          db = update_run_phase p run.id scanning (i.phase_at scanning) st.db;
        } in
        elim i.scan [
          | none ↦ commit_failure i.scan_error "local_scan" begun
          | some paths ↦ attempt_scanned paths begun
        ]
  ]
