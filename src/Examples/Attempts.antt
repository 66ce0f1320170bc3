-- ===== src/Examples/Attempts.antt =====
-- Attempts on the profile "p".
use gd_sync_harness.Prelude.{
  lt_count, length, ◌≡◌, ◌≢◌, String, true, false, some, none, is_some, List, [], ◌∷◌, All, refl,
  pos, str_eq,
}
use gd_sync_harness.Db.Schema.{Db, SyncRun}
use gd_sync_harness.Db.Ledger.{Store, EntryState}
use gd_sync_harness.Sync.Claim.{claim_run, claimed, new_run, refusal}
use gd_sync_harness.Lifecycle.{created, create_profile}
use gd_sync_harness.Manifest.{classify_disappearances, disappeared, kept_by}
use gd_sync_harness.Db.Table.{exists_where, select_where}
use gd_sync_harness.Machine.{Reach, start, next, apply, claim, create, empty}
use gd_sync_harness.Sync.{new_row}
use gd_sync_harness.Worker.Rows.{HasRow}
use gd_sync_harness.Reconcile.{
  World, Trace, effective_delete_limit, reconcile_protected, preflight, compare_scans, run_live,
  finish_live, delete_remote_paths, mark_dirty_if_changed,
}
use gd_sync_harness.Policy.{mark_policy_refresh_running}
use gd_sync_harness.Sync.Progress.{update_run_files_discovered, update_run_phase, update_run_stats}
use gd_sync_harness.Reconcile.Safety.{Cleared}
use gd_sync_harness.Sorted.{sorted_paths}
use gd_sync_harness.Worker.{ExecError, ValidationError}
use gd_sync_harness.Worker.Attempt.{
  Inputs, Outcome, report_phases, write_checkpoints, attempt_scanned, finish_attempt,
  conclude_attempt, commit_failure, success, failure, execute_attempt, proven_deletions,
  reconcile_attempt,
}
use gd_sync_harness.Worker.Released.{Released, execute_attempt-Released}
use gd_sync_harness.Worker.Guarded.{MayGo, attempt_deletes_gone, attempt_success}
use gd_sync_harness.Worker.Failures.{invalid_ownership, execute_attempt-closes}
use gd_sync_harness.Examples.Data.{live_profile, entry}

abbrev plain : ExecError
plain = record {
  canceled = false;
  is_source_unstable = false;
  is_budget_exceeded = false;
  ownership = none;
  exit_code = none;
  message = "failed";
}

abbrev wrong_root : ValidationError
wrong_root = record { code = "ownership_mismatch"; temporary = false }

abbrev not_owned : ExecError
not_owned = record plain { ownership = some wrong_root }

abbrev steady : World
steady = record {
  first_scan = some "1:a.md:5:7;";
  second_scan = some "1:a.md:5:7;";
  third_scan = some "1:a.md:5:7;";
  duplicates = some false;
  dry_run = true;
  full_sync = true;
  refuses = λ rel. false;
  deletes = λ rel. true;
}

abbrev calm : Inputs
calm = record {
  ownership = none;
  scan = some ("a.md" ∷ []);
  scan_error = plain;
  excluded = λ path. str_eq path "draft.md";
  world = steady;
  cause = λ e. plain;
  entries = some (entry "a.md" EntryState.active ∷ []);
  entries_error = plain;
  phase_at = λ phase. 7;
  checkpoints = λ phase. (8, true) ∷ [];
  counted_at = 7;
  done_at = 9;
  failed_at_ns = 9000000;
  jitter = 0;
}

-- A reachable database, with a ledger of three files of which one was deleted and one is ignored.
abbrev claimed_db : Db
claimed_db = apply "p" (claim "r1" 6) (apply "p" (create (pos 10) true "h0" 5) empty)

claimed_reach : Reach claimed_db
claimed_reach = next "p" (claim "r1" 6) (next "p" (create (pos 10) true "h0" 5) start tt) tt

abbrev store : Store
store = record {
  db = claimed_db;
  manifest =
      entry "a.md" EntryState.active
      ∷ entry "gone.md" EntryState.active
      ∷ entry "draft.md" EntryState.active
      ∷ [];
  prune_requests = [];
  prune_targets = [];
}

abbrev first_run : SyncRun
first_run = new_run "p" "r1" live_profile (new_row 1) 6

row_there : HasRow "p" store.db
unfolding apply created claim_run create_profile exists_where refusal
row_there = refl

execute_attempt-Released_example :
    Released "p" first_run.id (execute_attempt "p" live_profile first_run calm store).0.db
execute_attempt-Released_example =
    execute_attempt-Released "p" live_profile first_run calm store row_there

abbrev proven : List String
proven = proven_deletions "p" live_profile first_run calm (store.db.policy "p") ("a.md" ∷ []) store

-- The path that is gone is deleted, the ignored one is not.
gone_proven : proven ≡ "gone.md" ∷ []
unfolding proven_deletions sorted_paths classify_disappearances disappeared kept_by select_where
    apply create_profile created claim_run exists_where refusal
gone_proven = refl

attempt_deletes_gone_example :
    (begun : Db) × (t : Trace) × (t
      ≡ reconcile_attempt "p" live_profile first_run calm proven begun)
    × (execute_attempt "p" live_profile first_run calm store
        ≡ finish_attempt "p" live_profile first_run calm t.error
            (store.db.policy "p")
            ("a.md" ∷ [])
            proven
            t
            (record store { db = t.db }))
    × All (MayGo calm.excluded ("a.md" ∷ [])) t.deleted
    × (t.uploaded ≡ true
        → lt_count
            (effective_delete_limit first_run.effective_max_delete live_profile)
            (length t.deleted)
          ≡ false)
    × (t.uploaded ≡ true → Cleared steady live_profile first_run.effective_max_delete proven)
    × (t.uploaded ≡ false → t.deleted ≡ [])
attempt_deletes_gone_example =
    attempt_deletes_gone "p" live_profile first_run calm ("a.md" ∷ []) store claimed_reach refl refl

abbrev no_trace : Trace
no_trace = record { phases = []; uploaded = false; deleted = []; db = empty; error = none }

-- The trace of an attempt that succeeds.
abbrev trace_of : Outcome → Trace
trace_of (success t) = t
trace_of (failure e) = no_trace

abbrev calm_result : Store × Outcome
calm_result = execute_attempt "p" live_profile first_run calm store

calm_succeeds : calm_result.1 ≡ success (trace_of calm_result.1)
unfolding execute_attempt attempt_scanned finish_attempt conclude_attempt proven_deletions
    reconcile_attempt report_phases write_checkpoints reconcile_protected preflight compare_scans
    run_live finish_live delete_remote_paths mark_dirty_if_changed sorted_paths
    classify_disappearances disappeared kept_by select_where apply create_profile created claim_run
    exists_where refusal update_run_files_discovered update_run_phase update_run_stats new_run
    mark_policy_refresh_running
calm_succeeds = refl

attempt_success_example :
    (calm.ownership ≡ none)
    × (is_some calm.entries ≡ true)
    × ((paths : List String) × (calm.scan ≡ some paths)
        × Cleared steady live_profile first_run.effective_max_delete
            (proven_deletions "p" live_profile first_run calm (store.db.policy "p") paths store))
attempt_success_example =
    attempt_success "p" live_profile first_run calm store (trace_of calm_result.1) calm_succeeds

-- The same, where the remote belongs to another profile.
abbrev refused : Inputs
refused = record calm { ownership = some not_owned }

refused_fails : (execute_attempt "p" live_profile first_run refused store).1 ≡ failure not_owned
unfolding execute_attempt commit_failure
refused_fails = refl

execute_attempt-closes_example :
    (claim_run "p" "r2" 99 (execute_attempt "p" live_profile first_run refused store).0.db).0
    ≢ claimed (new_run "p" "r2" live_profile (new_row 1) 99)
execute_attempt-closes_example =
    execute_attempt-closes "p" live_profile first_run refused store not_owned row_there
      refused_fails (invalid_ownership refl refl refl wrong_root refl refl) "r2" 99
      (new_run "p" "r2" live_profile (new_row 1) 99)
