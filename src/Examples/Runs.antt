-- ===== src/Examples/Runs.antt =====
-- Attempts of a profile, and the databases that the transactions reach.
use gd_sync_harness.Prelude.{◌≡◌, ℕ, String, pos, true, false, some, [], refl, str_eq}
use gd_sync_harness.Db.Schema.{
  Db, ProfileSyncState, SyncRun, queued, ok, retryable, retryable_limited,
}
use gd_sync_harness.Retry.{retry_backoff, limited_retry_backoff}
use gd_sync_harness.Sync.Intent.{submit_manual_reconcile}
use gd_sync_harness.Db.Table.{exists_where, update_where}
use gd_sync_harness.Sync.Claim.{refusal, gate_closed, in_window, claimed, claim_run, new_run}
use gd_sync_harness.Sync.Commit.{commit_run_failure, failed_row}
use gd_sync_harness.Sync.Invariant.{IsSound}
use gd_sync_harness.Sync.Admission.{Admits, Admission, claim_run_sound, manual_claimable}
use gd_sync_harness.Sync.Runs.{live_runs}
use gd_sync_harness.Machine.{Reach, start, next, apply, create, claim, empty}
use gd_sync_harness.Machine.Owned.{Owned}
use gd_sync_harness.Machine.Reachable.{Reach-IsSound, Reach-single_flight}
use gd_sync_harness.Lifecycle.{create_profile}
use gd_sync_harness.Sync.{new_row}
use gd_sync_harness.Sync.Claim.{take, consume}
use gd_sync_harness.Examples.Data.{
  live_profile, settled, owing, busy, db_of, manual_ten, failure_of,
}

abbrev run_of : String → ProfileSyncState → ℕ → SyncRun
run_of id s now = new_run "p" id live_profile s now

claim_starts : (claim_run "p" "r1" 5 (db_of owing [])).0 ≡ claimed (run_of "r1" owing 5)
unfolding claim_run refusal exists_where
claim_starts = refl

claim_run_sound_example : Admission "p" "r1" 5 (db_of owing []) (run_of "r1" owing 5)
claim_run_sound_example =
    claim_run_sound "p" "r1" 5 (db_of owing []) (run_of "r1" owing 5) claim_starts

owing-Admits : Admits live_profile owing 5
unfolding gate_closed in_window
owing-Admits = record {
  alive = refl;
  enabled = refl;
  kept = refl;
  idle = refl;
  owing = refl;
  open_gate = refl;
  settled = refl;
}

no_runs : exists_where {V = SyncRun} (λ r. str_eq r.id "r1") [] ≡ false
unfolding exists_where
no_runs = refl

manual_claimable_example :
    (r : SyncRun) × ((claim_run "p" "r1" 5
        (submit_manual_reconcile "p" manual_ten (db_of settled [])).1).0
      ≡ claimed r)
    × ((submit_manual_reconcile "p" manual_ten (db_of settled [])).0 ≡ ok r.target_generation)
manual_claimable_example =
    manual_claimable "p" "r1" 5 manual_ten (db_of settled []) live_profile refl refl refl refl refl
      no_runs

abbrev late : ℕ
late = 100000000

retry_starts :
    (claim_run "p" "r2" late
      (commit_run_failure "p" "r1" (failure_of retryable) 5 0 (db_of busy [])).1).0
    ≡ claimed (run_of "r2" (failed_row (failure_of retryable) 5 0 busy) late)
unfolding claim_run commit_run_failure failed_row refusal retry_backoff exists_where update_where
retry_starts = refl

limited_starts :
    (claim_run "p" "r2" late
      (commit_run_failure "p" "r1" (failure_of retryable_limited) 5 0 (db_of busy [])).1).0
    ≡ claimed (run_of "r2" (failed_row (failure_of retryable_limited) 5 0 busy) late)
unfolding claim_run commit_run_failure failed_row refusal limited_retry_backoff exists_where
    update_where
limited_starts = refl

-- Two steps: the profile is created, and its first run is claimed.
abbrev created_db : Db
created_db = apply "p" (create (pos 10) true "h0" 5) empty

abbrev claimed_db : Db
claimed_db = apply "p" (claim "r1" 6) created_db

two_steps : Reach claimed_db
two_steps = next "p" (claim "r1" 6) (next "p" (create (pos 10) true "h0" 5) start tt) tt

abbrev first_busy : ProfileSyncState
first_busy = record (new_row 1) {
  current_run_id = some "r1";
  phase = some queued;
  last_progress_at = some 6;
  last_heartbeat_at = some 6;
}

claimed_row : claimed_db.sync_state "p" ≡ some first_busy
unfolding apply create_profile claim_run refusal exists_where take consume
claimed_row = refl

Reach-IsSound_example : IsSound first_busy
Reach-IsSound_example = Reach-IsSound two_steps "p" first_busy claimed_row

Reach-single_flight_example : Owned (some "r1") 1 (live_runs "p" claimed_db.sync_runs)
Reach-single_flight_example = Reach-single_flight two_steps "p" first_busy claimed_row
