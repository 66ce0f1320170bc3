-- ===== src/Examples/Reports.antt =====
-- A report that arrives after its attempt.
use gd_sync_harness.Prelude.{[], ◌∷◌}
use gd_sync_harness.Db.Schema.{Db, ProfileSyncState}
use gd_sync_harness.Sync.Claim.{new_run}
use gd_sync_harness.Sync.Commit.{settle, commit_run_success}
use gd_sync_harness.Examples.Data.{live_profile, busy, owing, db_of}

-- The database in which the attempt "r1" of the profile runs.
abbrev in_flight : Db
in_flight = record (db_of busy []) { sync_runs = new_run "p" "r1" live_profile owing 5 ∷ [] }

-- The same after its success, and the row of the profile there.
abbrev done : Db
done = commit_run_success "p" "r1" 8 20 in_flight

abbrev done_row : ProfileSyncState
done_row = settle 8 20 busy
