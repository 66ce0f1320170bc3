-- ===== src/Worker/Rows.antt =====
-- The row of a profile lasts over an attempt.
use gd_sync_harness.Prelude.{
  ℕ, ℤ, String, Bool, ◌≡◌, true, List, [], ◌∷◌, inl, inr, arith, Bool-cases, is_some, eq_refl,
}
use gd_sync_harness.Db.Schema.{Db, Profile, ProfileSyncState, SyncRun, Phase}
use gd_sync_harness.Sync.{update_sync, ensure_reconcile_generation}
use gd_sync_harness.Sync.Progress.{update_run_phase, update_run_files_discovered, update_run_stats}
use gd_sync_harness.Reconcile.{
  World, mark_dirty_if_changed, finish_live, run_live, reconcile_protected,
}
use gd_sync_harness.Reconcile.Safety.{remote_protected, reconcile-live}
use gd_sync_harness.Worker.Attempt.{Inputs, Checkpoints, write_checkpoints, report_phases}

-- The profile has its row.
abbrev pub HasRow : String → Db → Type 0
HasRow p db = is_some (db.sync_state p) ≡ true

pub update_sync-HasRow :
    (p : String) (f : ProfileSyncState → ProfileSyncState) (db : Db)
    → HasRow p db
    → HasRow p (update_sync p f db)
update_sync-HasRow p f db h = ground (arith, eq_refl p)

-- What the worker reports keeps the rows.

pub update_run_phase-HasRow :
    (p run_id : String) (phase : Phase) (now : ℕ) (db : Db)
    → HasRow p db
    → HasRow p (update_run_phase p run_id phase now db)
unfolding update_run_phase
update_run_phase-HasRow p run_id phase now db h = ground (arith, eq_refl p)

pub update_run_files-HasRow :
    (p run_id : String) (files now : ℕ) (db : Db)
    → HasRow p db
    → HasRow p (update_run_files_discovered p run_id files now db)
unfolding update_run_files_discovered
update_run_files-HasRow p run_id files now db h = ground (arith, eq_refl p)

pub update_run_stats-HasRow :
    (p run_id : String) (measurable : Bool) (now : ℕ) (db : Db)
    → HasRow p db
    → HasRow p (update_run_stats p run_id measurable now db)
unfolding update_run_stats
update_run_stats-HasRow p run_id measurable now db h = ground (arith, eq_refl p)

pub write_checkpoints-HasRow :
    (p : String) (pr : Profile) (run : SyncRun) (i : Inputs) (cs : Checkpoints) (db : Db)
    → HasRow p db
    → HasRow p (write_checkpoints p pr run i cs db)
unfolding write_checkpoints
write_checkpoints-HasRow p pr run i [] db h = h
write_checkpoints-HasRow p pr run i ((now, m) ∷ cs) db h =
    write_checkpoints-HasRow p pr run i cs _ (update_run_stats-HasRow p run.id m now db h)

pub report_phases-HasRow :
    (p : String) (pr : Profile) (run : SyncRun) (i : Inputs) (phases : List Phase) (db : Db)
    → HasRow p db
    → HasRow p (report_phases p pr run i phases db)
unfolding report_phases
report_phases-HasRow p pr run i [] db h = h
report_phases-HasRow p pr run i (x ∷ xs) db h = report_phases-HasRow p pr run i xs _ (
    write_checkpoints-HasRow p pr run i (i.checkpoints x) _
      (update_run_phase-HasRow p run.id x (i.phase_at x) db h))

pub ensure-HasRow :
    (p : String) (g : ℕ) (db : Db) → HasRow p db → HasRow p (ensure_reconcile_generation p g db)
unfolding ensure_reconcile_generation
ensure-HasRow p g db h = ground (arith, eq_refl p)

pub mark_dirty-HasRow :
    (w : World) (p fingerprint : String) (db : Db)
    → HasRow p db
    → HasRow p (mark_dirty_if_changed w p fingerprint db).0
unfolding mark_dirty_if_changed ensure_reconcile_generation
mark_dirty-HasRow w p fingerprint db h = ground (arith, eq_refl p)

pub finish_live-HasRow :
    (w : World) (p fingerprint : String) (proven : List String) (db : Db)
    → HasRow p db
    → HasRow p (finish_live w p fingerprint proven db).db
unfolding finish_live
finish_live-HasRow w p fingerprint proven db h =
    ground (arith, mark_dirty-HasRow w p fingerprint db h)

pub run_live-HasRow :
    (w : World) (p fingerprint : String) (proven : List String) (db : Db)
    → HasRow p db
    → HasRow p (run_live w p fingerprint proven db).db
unfolding run_live
run_live-HasRow w p fingerprint proven db h =
    ground (arith, finish_live-HasRow w p fingerprint proven db h)

-- A reconciliation keeps the row: it leaves the database alone, or it is the live part.
pub reconcile-HasRow :
    (w : World) (p : String) (pr : Profile) (allow : ℤ) (proven : List String) (db : Db)
    → HasRow p db
    → HasRow p (reconcile_protected w p pr allow proven db).db
reconcile-HasRow w p pr allow proven db h =
    let t = reconcile_protected w p pr allow proven db in
    let (clear, quiet, first, fine, dead) = remote_protected w p pr allow proven db in
    elim (Bool-cases t.uploaded) [
      | inl up ↦
          let c = clear up in
          rw (reconcile-live w p pr allow proven db c)
            (run_live-HasRow w p c.fingerprint proven db h)
      | inr idle ↦ let (nothing, same, failed) = quiet idle in rw same h
    ]
