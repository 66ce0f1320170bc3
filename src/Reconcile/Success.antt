-- ===== src/Reconcile/Success.antt =====
-- A reconciliation that succeeds.
use gd_sync_harness.Prelude.{
  ℤ, ◌≡◌, ◌≢◌, ◌+◌, String, true, false, none, some, List, [], ◌∷◌, All, eq_iff, eq_refl, refl,
  arith, ap, ◌∙◌,
}
use gd_sync_harness.Db.Schema.{Db, Profile, Runtime, ProfileSyncState}
use gd_sync_harness.Sync.{raise_desired, ensure_reconcile_generation}
use gd_sync_harness.Reconcile.{
  World, delete_remote_paths, mark_dirty_if_changed, run_live, finish_live, reconcile_protected,
}
use gd_sync_harness.Reconcile.Safety.{Cleared, reconcile-live}

-- Where every path is accepted and can be deleted, all are, without an error.
delete_remote_paths_complete :
    (w : World) (paths : List String)
    → All (λ rel. (w.refuses rel ≡ false) × (w.deletes rel ≡ true)) paths
    → delete_remote_paths w paths ≡ (paths, none)
unfolding delete_remote_paths
delete_remote_paths_complete w [] h = refl
delete_remote_paths_complete w (rel ∷ paths) ((a, b), h) =
    rw (a, b, delete_remote_paths_complete w paths h) refl

-- The mark after the live sync: nothing if the source is as it was scanned, and otherwise one more
-- generation, which the profile is asked to reach.
mark_dirty-exact :
    (w : World) (p fp third : String) (db : Db) (r : Runtime) (s : ProfileSyncState)
    → w.third_scan ≡ some third
    → db.runtime p ≡ some r
    → db.sync_state p ≡ some s
    → let m = mark_dirty_if_changed w p fp db in
      (m.1 ≡ none)
      × (third ≡ fp → m.0 ≡ db)
      × (third ≢ fp
          → (m.0.sync_state p ≡ some (raise_desired (r.source_generation + 1) s))
            × (m.0.runtime p ≡ some (record r { source_generation = r.source_generation + 1 })))
unfolding mark_dirty_if_changed ensure_reconcile_generation
mark_dirty-exact w p fp third db r s t e k =
    let same = eq_iff third fp in
    (
      ground (arith, same),
      λ unchanged. ground (arith, same),
      λ changed. (ground (arith, same, eq_refl p), ground (arith, same, eq_refl p)),
    )

-- The live part, where the upload and the deletions succeed.
live-succeeds :
    (w : World) (p fp : String) (proven : List String) (db : Db)
    → w.full_sync ≡ true
    → delete_remote_paths w proven ≡ (proven, none)
    → let t = run_live w p fp proven db in
      let m = mark_dirty_if_changed w p fp db in
      (t.error ≡ m.1) × (t.deleted ≡ proven) × (t.db ≡ m.0)
unfolding run_live finish_live
live-succeeds w p fp proven db full all = (ground arith, ground arith, ground arith)

-- A reconciliation that is cleared, whose upload succeeds and whose proven deletions are accepted and
-- possible, ends without an error and has deleted exactly the proven deletions. If the source is
-- still what was scanned, the database is as it was; if it changed meanwhile, the source has one more
-- generation and the desired generation of the profile covers it.
pub reconcile_succeeds :
    (w : World) (p : String) (pr : Profile) (allow : ℤ) (proven : List String) (db : Db)
    (third : String) (r : Runtime) (s : ProfileSyncState)
    → (c : Cleared w pr allow proven) → w.full_sync ≡ true
    → All (λ rel. (w.refuses rel ≡ false) × (w.deletes rel ≡ true)) proven
    → w.third_scan ≡ some third
    → db.runtime p ≡ some r
    → db.sync_state p ≡ some s
    → let t = reconcile_protected w p pr allow proven db in
      (t.error ≡ none)
      × (t.deleted ≡ proven)
      × (third ≡ c.fingerprint → t.db ≡ db)
      × (third ≢ c.fingerprint
          → (t.db.sync_state p ≡ some (raise_desired (r.source_generation + 1) s))
            × (t.db.runtime p ≡ some (record r { source_generation = r.source_generation + 1 })))
reconcile_succeeds w p pr allow proven db third r s c full fine scan e k =
    let all = delete_remote_paths_complete w proven fine in
    let (ended, gone, left) = live-succeeds w p c.fingerprint proven db full all in
    let (ok, kept, raised) = mark_dirty-exact w p c.fingerprint third db r s scan e k in
    rw (reconcile-live w p pr allow proven db c) (
      ended ∙ ok,
      gone,
      λ same. left ∙ kept same,
      λ changed. (
        ap (λ d. d.sync_state p) left ∙ (raised changed).0,
        ap (λ d. d.runtime p) left ∙ (raised changed).1,
      ),
    )
