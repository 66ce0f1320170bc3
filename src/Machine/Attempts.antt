-- ===== src/Machine/Attempts.antt =====
-- The claim and the three ways in which an attempt ends keep every profile well formed.
use gd_sync_harness.Prelude.{
  ℕ, ◌≤◌, String, ◌≡◌, refl, ap, ◌∙◌, subst, true, inl, inr, none, some, List, [], ◌∷◌, ◌++◌,
  str_eq, eq_iff, eq_refl, arith, Bool-cases, Option-cases, mem-single, if◌then◌else◌,
}
use mathlib.Core.List.{append-nil, Memᴰ}
use gd_sync_harness.Db.Table.{select_where, delete_where, update_where}
use gd_sync_harness.Db.Schema.{Db, Profile, ProfileSyncState, SyncRun}
use gd_sync_harness.Sync.{has_debt, update_sync}
use gd_sync_harness.Sync.Invariant.{claimed-IsSound, settle-IsSound, failed-IsSound, orphan-IsSound}
use gd_sync_harness.Sync.Runs.{
  live_runs, live_runs-append, Ends, live_runs-end, live_runs-end_ne, live_runs-end_all,
  live_runs-end_all_ne,
}
use gd_sync_harness.Sync.Claim.{refusal, new_run, consume, take, claim_run}
use gd_sync_harness.Sync.Claiming.{started, Started, claim_run-cases}
use gd_sync_harness.Sync.Commit.{
  settle, succeed_run, is_live_run, fail_run, failed_row, orphan_row, charge, orphaned, RunFailure,
  write_failure, commit_run_success, commit_run_failure, orphan_current_run, stamp,
}
use gd_sync_harness.Machine.{Holds, HasTarget}
use gd_sync_harness.Machine.Owned.{WellFormed, RowOk, WellFormed-write, Owned}

-- A claim starts an attempt only where none is running, and for debt.
claimable :
    (pr : Profile) (s : ProfileSyncState) (now : ℕ)
    → refusal pr s now ≡ none
    → (s.current_run_id ≡ none) × (has_debt s ≡ true)
unfolding refusal
claimable pr s now h = ground arith

live_runs-claim :
    (p q id : String) (pr : Profile) (s : ProfileSyncState) (now : ℕ) (rs : List SyncRun)
    → live_runs q (rs ++ new_run p id pr s now ∷ [])
      ≡ (if str_eq p q then live_runs q rs ++ new_run p id pr s now ∷ [] else live_runs q rs)
unfolding new_run
live_runs-claim p q id pr s now rs = rw live_runs-append (
    unfold live_runs select_where in
    elim (Bool-cases (str_eq p q)) [ inl same ↦ rw same | inr other ↦ rw other (append-nil _) ])

claimed-Owned :
    (p id : String) (pr : Profile) (s : ProfileSyncState) (now : ℕ) (rs : List SyncRun)
    → live_runs p rs ≡ []
    → Owned
        (some id)
        (take id now (consume s)).desired_generation
        (live_runs p (rs ++ new_run p id pr s now ∷ []))
unfolding new_run take consume
claimed-Owned p id pr s now rs e = (
  new_run p id pr s now,
  ground (arith, live_runs-claim p p id pr s now rs, eq_refl p, e),
  refl,
  ground arith,
)

started-WellFormed :
    (p q id : String) (now : ℕ) (pr : Profile) (s : ProfileSyncState) (db : Db)
    → Started p id now db pr s
    → ((j : String) → WellFormed j db)
    → WellFormed q (started p id pr s now db)
unfolding take
started-WellFormed p q id now pr s db st w =
    let (idle, owing) = claimable pr s now st.free in
    let wp : RowOk (some s) (live_runs p db.sync_runs) = rw st.row at (w p) in
    let none_live : live_runs p db.sync_runs ≡ [] =
      subst (λ o. Owned o s.desired_generation (live_runs p db.sync_runs)) idle wp.1 in
    WellFormed-write p q (some (take id now (consume s))) db (started p id pr s now db)
      (record {
        row = ground (arith, eq_refl p, st.row);
        row_ok = (
          claimed-IsSound id now s owing wp.0,
          claimed-Owned p id pr s now db.sync_runs none_live,
        );
        others = λ j other. ground arith;
        runs = λ j other. rw (live_runs-claim p j id pr s now db.sync_runs, other) refl;
      })
      (w q)

pub claim-WellFormed :
    (p q id : String) (now : ℕ) (db : Db)
    → ((j : String) → WellFormed j db)
    → WellFormed q (claim_run p id now db).1
claim-WellFormed p q id now db w = elim (claim_run-cases p id now db) [
  | inl (same, none_claimed) ↦ rw same (w q)
  | inr (pr, s, st) ↦ rw (ap (λ c. c.1) st.result) (started-WellFormed p q id now pr s db st w)
]

succeed_run-Ends : (now : ℕ) → Ends (succeed_run now)
unfolding succeed_run
succeed_run-Ends now = record { stops = λ r. refl; keeps_profile = λ r. refl }

fail_run-Ends : (f : RunFailure) (now : ℕ) → Ends (fail_run f now)
unfolding fail_run
fail_run-Ends f now = record { stops = λ r. refl; keeps_profile = λ r. refl }

-- The one attempt that is running is the current one; ending it leaves none.
module _ (p run_id : String) (s : ProfileSyncState) (rs : List SyncRun) where
  current_only :
      s.current_run_id ≡ some run_id
      → Owned s.current_run_id s.desired_generation (live_runs p rs)
      → Owned (some run_id) s.desired_generation (live_runs p rs)
  current_only cur w = subst (λ o. Owned o s.desired_generation (live_runs p rs)) cur w

  none-left :
      (f : SyncRun → SyncRun)
      → Ends f
      → Owned (some run_id) s.desired_generation (live_runs p rs)
      → live_runs p (update_where (is_live_run p run_id) f rs) ≡ []
  unfolding delete_where
  none-left f ends (r, one, id, t) =
      live_runs-end p f ends run_id rs ∙ rw one (ground (arith, eq_iff r.id run_id))

  target-le :
      (target : ℕ)
      → Owned (some run_id) s.desired_generation (live_runs p rs)
      → ((r : SyncRun) × Memᴰ r (live_runs p rs) × (r.id ≡ run_id) × (r.target_generation ≡ target))
      → target ≤ s.desired_generation
  target-le target (r, one, id, t) (r', m, id', e) =
      omega (
        arith,
        ap (λ (x : SyncRun). x.target_generation) (mem-single (subst (λ l. Memᴰ r' l) one m)),
      )

pub succeed-WellFormed :
    (p q run_id : String) (target now : ℕ) (db : Db)
    → Holds p run_id db
    → HasTarget p run_id target db
    → ((j : String) → WellFormed j db)
    → WellFormed q (commit_run_success p run_id target now db)
unfolding commit_run_success
succeed-WellFormed p q run_id target now db (s, row, cur) has w =
    let wp : RowOk (some s) (live_runs p db.sync_runs) = rw row at (w p) in
    let own = current_only p run_id s db.sync_runs cur wp.1 in
    WellFormed-write p q (some (settle target now s)) db (commit_run_success p run_id target now db)
      (record {
        row = ground (arith, eq_refl p, row);
        row_ok = (
          settle-IsSound target now s (target-le p run_id s db.sync_runs target own has) wp.0,
          none-left p run_id s db.sync_runs (succeed_run now) (succeed_run-Ends now) own,
        );
        others = λ j other. ground arith;
        runs = λ j other.
            live_runs-end_ne p (succeed_run now) (succeed_run-Ends now) j other run_id db.sync_runs;
      })
      (w q)

pub orphan-WellFormed :
    (p q : String) (now : ℕ) (db : Db)
    → ((j : String) → WellFormed j db)
    → WellFormed q (orphan_current_run p now db)
unfolding orphan_current_run
orphan-WellFormed p q now db w = elim (Option-cases (db.sync_state p)) [
  | inl e ↦
      WellFormed-write p q none db (orphan_current_run p now db)
        (record {
          row = ground (arith, eq_refl p, e);
          row_ok =
              live_runs-end_all p (fail_run orphaned now) (fail_run-Ends orphaned now) db.sync_runs;
          others = λ j other. ground arith;
          runs = λ j other.
              live_runs-end_all_ne p (fail_run orphaned now) (fail_run-Ends orphaned now) j other
                db.sync_runs;
        })
        (w q)
  | inr (s, e) ↦
      WellFormed-write p q (some (orphan_row s)) db (orphan_current_run p now db)
        (record {
          row = ground (arith, eq_refl p, e);
          row_ok = (
            orphan-IsSound s (rw e at (w p)).0,
            live_runs-end_all p (fail_run orphaned now) (fail_run-Ends orphaned now) db.sync_runs,
          );
          others = λ j other. ground arith;
          runs = λ j other.
              live_runs-end_all_ne p (fail_run orphaned now) (fail_run-Ends orphaned now) j other
                db.sync_runs;
        })
        (w q)
]

pub fail-WellFormed :
    (p q run_id : String) (f : RunFailure) (now_ns jitter : ℕ) (db : Db)
    → Holds p run_id db
    → ((j : String) → WellFormed j db)
    → WellFormed q (commit_run_failure p run_id f now_ns jitter db).1
unfolding commit_run_failure
fail-WellFormed p q run_id f now_ns jitter db (s, row, cur) w =
    let wp : RowOk (some s) (live_runs p db.sync_runs) = rw row at (w p) in
    let own = current_only p run_id s db.sync_runs cur wp.1 in
    let g = (charge f s now_ns jitter).failure in
    let now = stamp now_ns in
    rw (row, commit_run_failure)
      (WellFormed-write p q (some (failed_row f now_ns jitter s)) db
        (update_sync p (failed_row f now_ns jitter) (write_failure p run_id g now db))
        (record {
          row = ground (arith, eq_refl p, row);
          row_ok = (
            failed-IsSound f now_ns jitter s wp.0,
            none-left p run_id s db.sync_runs (fail_run g now) (fail_run-Ends g now) own,
          );
          others = λ j other. ground arith;
          runs = λ j other.
              live_runs-end_ne p (fail_run g now) (fail_run-Ends g now) j other run_id db.sync_runs;
        })
        (w q))
