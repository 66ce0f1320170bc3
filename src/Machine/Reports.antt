-- ===== src/Machine/Reports.antt =====
-- What a worker reports about its attempt keeps every profile well formed.
use gd_sync_harness.Prelude.{
  ℕ, String, ◌≡◌, refl, sym, subst, Bool, inl, inr, Option, none, some, List, [], ◌∷◌, arith,
  Bool-cases, ◌∙◌,
}
use gd_sync_harness.Db.Table.{update_where, select_where}
use gd_sync_harness.Db.Schema.{Db, ProfileSyncState, SyncRun, Phase}
use gd_sync_harness.Sync.{update_sync}
use gd_sync_harness.Sync.Invariant.{IsSound}
use gd_sync_harness.Sync.Commit.{is_running, is_live_run}
use gd_sync_harness.Sync.Runs.{live_runs}
use gd_sync_harness.Sync.Progress.{
  update_run_phase, update_run_files_discovered, update_run_heartbeat, update_run_stats,
  enter_phase, progress_after,
}
use gd_sync_harness.Machine.Owned.{WellFormed, RowOk, Owned, Raises, WellFormed-raise}

-- A SET on an attempt that keeps its key, its state and its target.
pub record Reports (f : SyncRun → SyncRun) : Type 0 where
  pub status : (r : SyncRun) → is_running (f r).status ≡ is_running r.status
  pub owner : (r : SyncRun) → (f r).profile_id ≡ r.profile_id
  pub named : (r : SyncRun) → (f r).id ≡ r.id
  pub target : (r : SyncRun) → (f r).target_generation ≡ r.target_generation

module _ (p id : String) (f : SyncRun → SyncRun) (k : Reports f) where
  live_runs-report :
      (q : String) (rs : List SyncRun)
      → live_runs q (update_where (is_live_run p id) f rs)
        ≡ update_where (is_live_run p id) f (live_runs q rs)
  unfolding live_runs select_where update_where
  live_runs-report q [] = refl
  live_runs-report q (r ∷ rs) = ground (arith, live_runs-report q rs, k.status r, k.owner r)

  Owned-report :
      (o : Option String) (n : ℕ) (ls : List SyncRun)
      → Owned o n ls
      → Owned o n (update_where (is_live_run p id) f ls)
  unfolding update_where
  Owned-report none n ls e = rw e refl
  Owned-report (some c) n ls (r, e, i, t) = rw e (elim (Bool-cases (is_live_run p id r)) [
    | inl b ↦ rw b (f r, refl, k.named r ∙ i, rw (k.target r) t)
    | inr b ↦ rw b (r, refl, i, t)
  ])

  RowOk-report :
      (o : Option ProfileSyncState) (ls : List SyncRun)
      → RowOk o ls
      → RowOk o (update_where (is_live_run p id) f ls)
  RowOk-report none ls e = Owned-report none 0 ls e
  RowOk-report (some s) ls (h, w) = (h, Owned-report s.current_run_id s.desired_generation ls w)

  report-WellFormed :
      (g : ProfileSyncState → ProfileSyncState) (q : String) (db : Db)
      → Raises g
      → WellFormed q db
      → WellFormed q (
          update_sync p g
            (record db { sync_runs = update_where (is_live_run p id) f db.sync_runs }))
  report-WellFormed g q db raises w =
      WellFormed-raise g p q
        (record db { sync_runs = update_where (is_live_run p id) f db.sync_runs }) raises
        (subst (RowOk (db.sync_state q)) (sym (live_runs-report q db.sync_runs))
          (RowOk-report (db.sync_state q) (live_runs q db.sync_runs) w))

-- A SET on the row of a profile that touches the telemetry only.
abbrev telemetry : Option Phase → Option ℕ → Option ℕ → ProfileSyncState → ProfileSyncState
telemetry phase progress heartbeat s = record s {
  phase = phase;
  last_progress_at = progress;
  last_heartbeat_at = heartbeat;
}

telemetry-IsSound :
    (phase : Option Phase) (progress heartbeat : Option ℕ) (s : ProfileSyncState)
    → IsSound s
    → IsSound (telemetry phase progress heartbeat s)
telemetry-IsSound phase progress heartbeat s h = record {
  success_bound = h.success_bound;
  manual_bound = h.manual_bound;
  ready_settled = h.ready_settled;
  initializing_new = h.initializing_new;
  syncing_once = h.syncing_once;
  running_owes = h.running_owes;
  running_open = h.running_open;
  limited_bound = h.limited_bound;
}

telemetry-Raises :
    (phase : ProfileSyncState → Option Phase) (progress heartbeat : ProfileSyncState → Option ℕ)
    → Raises (λ s. telemetry (phase s) (progress s) (heartbeat s) s)
telemetry-Raises phase progress heartbeat = record {
  sound = λ s. telemetry-IsSound (phase s) (progress s) (heartbeat s) s;
  current = λ s. refl;
  desired = λ s. omega arith;
}

pub phase-WellFormed :
    (p q id : String) (phase : Phase) (now : ℕ) (db : Db)
    → WellFormed q db
    → WellFormed q (update_run_phase p id phase now db)
unfolding update_run_phase
phase-WellFormed p q id phase now db w =
    report-WellFormed p id (enter_phase phase now)
      (unfold enter_phase in
        record { status = λ r. refl; owner = λ r. refl; named = λ r. refl; target = λ r. refl })
      (λ s. record s { phase = some phase }) q db
      (telemetry-Raises (λ s. some phase) (λ s. s.last_progress_at) (λ s. s.last_heartbeat_at)) w

pub discovered-WellFormed :
    (p q id : String) (files now : ℕ) (db : Db)
    → WellFormed q db
    → WellFormed q (update_run_files_discovered p id files now db)
unfolding update_run_files_discovered
discovered-WellFormed p q id files now db w =
    report-WellFormed p id (λ r. record r { files_discovered = files; last_progress_at = some now })
      (record { status = λ r. refl; owner = λ r. refl; named = λ r. refl; target = λ r. refl })
      (λ s. record s { last_progress_at = some now; last_heartbeat_at = some now }) q db
      (telemetry-Raises (λ s. s.phase) (λ s. some now) (λ s. some now)) w

pub heartbeat-WellFormed :
    (p q id : String) (now : ℕ) (db : Db)
    → WellFormed q db
    → WellFormed q (update_run_heartbeat p id now db)
unfolding update_run_heartbeat
heartbeat-WellFormed p q id now db w =
    report-WellFormed p id (λ r. record r { last_heartbeat_at = some now })
      (record { status = λ r. refl; owner = λ r. refl; named = λ r. refl; target = λ r. refl })
      (λ s. record s { last_heartbeat_at = some now }) q db
      (telemetry-Raises (λ s. s.phase) (λ s. s.last_progress_at) (λ s. some now)) w

pub stats-WellFormed :
    (p q id : String) (measurable : Bool) (now : ℕ) (db : Db)
    → WellFormed q db
    → WellFormed q (update_run_stats p id measurable now db)
unfolding update_run_stats
stats-WellFormed p q id measurable now db w =
    report-WellFormed p id
      (λ r. record r {
        last_heartbeat_at = some now;
        last_progress_at = progress_after measurable now r.last_progress_at;
      })
      (record { status = λ r. refl; owner = λ r. refl; named = λ r. refl; target = λ r. refl })
      (λ s. record s {
        last_heartbeat_at = some now;
        last_progress_at = progress_after measurable now s.last_progress_at;
      })
      q db
      (telemetry-Raises (λ s. s.phase) (λ s. progress_after measurable now s.last_progress_at)
        (λ s. some now))
      w
