-- ===== src/Worker/Released.antt =====
-- No attempt is left owned, whatever happens to it.
use gd_sync_harness.Prelude.{
  ℕ, String, ◌≡◌, refl, false, none, some, List, [], ◌∷◌, inl, inr, arith, All, Bool-cases,
  Option-cases, eq_refl,
}
use gd_sync_harness.Db.Table.{update_where}
use gd_sync_harness.Db.Schema.{Db, Profile, ProfileSyncState, SyncRun}
use gd_sync_harness.Db.Ledger.{Store}
use gd_sync_harness.Sync.Commit.{
  RunFailure, is_live_run, fail_run, failed_row, write_failure, commit_run_failure,
  commit_run_success, settle, charge, stamp,
}
use gd_sync_harness.Sync.Progress.{succeed-not_live}
use gd_sync_harness.Worker.Rows.{HasRow}
use gd_sync_harness.Worker.Ending.{attempt_ends, failed, succeeded}
use gd_sync_harness.Worker.{classify_error}
use gd_sync_harness.Worker.Attempt.{Inputs, commit_failure, execute_attempt}

-- The attempt is nobody's: the row has no current attempt, and the attempt does not run.
pub record Released (p run_id : String) (db : Db) : Type 0 where
  pub row : ProfileSyncState
  pub row_eq : db.sync_state p ≡ some row
  pub idle : row.current_run_id ≡ none
  pub ended : All (λ r. is_live_run p run_id r ≡ false) db.sync_runs

fail-not_live :
    (p run_id : String) (f : RunFailure) (now : ℕ) (rs : List SyncRun)
    → All
        (λ r. is_live_run p run_id r ≡ false)
        (update_where (is_live_run p run_id) (fail_run f now) rs)
unfolding update_where fail_run
fail-not_live p run_id f now [] = tt
fail-not_live p run_id f now (r ∷ rs) = elim (Bool-cases (is_live_run p run_id r)) [
  | inl b ↦ rw b (ground arith, fail-not_live p run_id f now rs)
  | inr b ↦ rw b (b, fail-not_live p run_id f now rs)
]

failed-idle :
    (f : RunFailure) (now_ns jitter : ℕ) (s : ProfileSyncState)
    → (failed_row f now_ns jitter s).current_run_id ≡ none
unfolding failed_row
failed-idle f now_ns jitter s = refl

commit_run_failure-runs :
    (p run_id : String) (f : RunFailure) (now_ns jitter : ℕ) (db : Db) (s : ProfileSyncState)
    → db.sync_state p ≡ some s
    → (commit_run_failure p run_id f now_ns jitter db).1.sync_runs
      ≡ update_where
          (is_live_run p run_id)
          (fail_run (charge f s now_ns jitter).failure (stamp now_ns))
          db.sync_runs
unfolding commit_run_failure write_failure
commit_run_failure-runs p run_id f now_ns jitter db s e = rw (e, commit_run_failure) refl

pub failure-Released :
    (p run_id : String) (f : RunFailure) (now_ns jitter : ℕ) (db : Db)
    → (h : HasRow p db) → Released p run_id (commit_run_failure p run_id f now_ns jitter db).1
unfolding commit_run_failure
failure-Released p run_id f now_ns jitter db h = elim (Option-cases (db.sync_state p)) [
  | inl n ↦ ground arith
  | inr (s, e) ↦ record {
    row = failed_row f now_ns jitter s;
    row_eq = ground (arith, eq_refl p);
    idle = failed-idle f now_ns jitter s;
    ended =
        rw (commit_run_failure-runs p run_id f now_ns jitter db s e)
          (fail-not_live p run_id _ _ db.sync_runs);
  }
]

pub success-Released :
    (p run_id : String) (target now : ℕ) (db : Db)
    → HasRow p db
    → Released p run_id (commit_run_success p run_id target now db)
unfolding commit_run_success
success-Released p run_id target now db h = elim (Option-cases (db.sync_state p)) [
  | inl n ↦ ground arith
  | inr (s, e) ↦ record {
    row = settle target now s;
    row_eq = ground (arith, eq_refl p);
    idle = unfold settle in refl;
    ended = succeed-not_live p run_id now db.sync_runs;
  }
]

module _ (p : String) (pr : Profile) (run : SyncRun) (i : Inputs) where
  -- An attempt is always released: whatever the file system, rclone and the clock answer, when the
  -- attempt of a profile that has its row is over, the profile has no current attempt, and the attempt
  -- does not run any more.
  pub execute_attempt-Released :
      (st : Store) → HasRow p st.db → Released p run.id (execute_attempt p pr run i st).0.db
  unfolding commit_failure
  execute_attempt-Released st h = elim (attempt_ends p pr run i st h) [
    | failed e code before row eq ↦
        rw eq
          (failure-Released p run.id (classify_error e code) i.failed_at_ns i.jitter before.db row)
    | succeeded t entries before row eq ↦
        rw eq (success-Released p run.id run.target_generation i.done_at before.db row)
  ]
