-- ===== src/Reconcile/Safety.antt =====
-- What a reconciliation may do to the remote.
use gd_sync_harness.Prelude.{
  ℤ, ◌≡◌, ◌≢◌, String, true, false, none, some, List, [], ◌∷◌, ◌++◌, All, length, lt_count, eq_iff,
  refl, ap, arith, inl, inr, ◌⊎◌, ◌∙◌, Bool-cases, Option-cases, eq_refl, cons_cong,
}
use gd_sync_harness.Db.Schema.{Db, Profile}
use gd_sync_harness.Reconcile.{
  World, preflight, effective_delete_limit, delete_remote_paths, run_live, finish_live,
  reconcile_protected,
}

-- The conditions under which a reconciliation may touch the remote.
pub record Cleared (w : World) (pr : Profile) (allow_deletes : ℤ) (proven : List String)
    : Type 0 where
  pub fingerprint : String
  pub scanned : w.first_scan ≡ some fingerprint
  pub stable : w.second_scan ≡ some fingerprint
  pub unique : w.duplicates ≡ some false
  pub planned : w.dry_run ≡ true
  pub within : lt_count (effective_delete_limit allow_deletes pr) (length proven) ≡ false

-- The paths that are deleted are the first ones of the list.
delete_remote_paths-prefix :
    (w : World) (paths : List String)
    → (rest : List String) × ((delete_remote_paths w paths).0 ++ rest ≡ paths)
unfolding delete_remote_paths
delete_remote_paths-prefix w [] = ([], refl)
delete_remote_paths-prefix w (rel ∷ paths) =
    let (rest, e) = delete_remote_paths-prefix w paths in
    elim (Bool-cases (w.refuses rel)) [
      | inl b ↦ (rel ∷ paths, rw b refl)
      | inr b ↦ elim (Bool-cases (w.deletes rel)) [
        | inl c ↦ (rest, rw (b, c) (cons_cong refl e))
        | inr c ↦ (rel ∷ paths, rw (b, c) refl)
      ]
    ]

-- No path is deleted that is refused.
delete_remote_paths-accepted :
    (w : World) (paths : List String)
    → All (λ rel. w.refuses rel ≡ false) (delete_remote_paths w paths).0
unfolding delete_remote_paths
delete_remote_paths-accepted w [] = tt
delete_remote_paths-accepted w (rel ∷ paths) = elim (Bool-cases (w.refuses rel)) [
  | inl b ↦ rw b tt
  | inr b ↦ elim (Bool-cases (w.deletes rel)) [
    | inl c ↦ rw (b, c) (b, delete_remote_paths-accepted w paths)
    | inr c ↦ rw (b, c) tt
  ]
]

-- The remote is touched only under the conditions that the safety rules name.
uploaded-Cleared :
    (w : World) (p : String) (pr : Profile) (allow : ℤ) (proven : List String) (db : Db)
    → (reconcile_protected w p pr allow proven db).uploaded ≡ true
    → Cleared w pr allow proven
unfolding reconcile_protected preflight
uploaded-Cleared w p pr allow proven db h = elim (Option-cases w.first_scan) [
  | inl e ↦ ground arith
  | inr (f, e) ↦ elim (Option-cases w.second_scan) [
    | inl k ↦ ground arith
    | inr (g, k) ↦ record {
      fingerprint = f;
      scanned = e;
      stable = ground (arith, eq_iff f g);
      unique = ground arith;
      planned = ground arith;
      within = ground arith;
    }
  ]
]

-- Once it is cleared, the reconciliation is its live part.
pub reconcile-live :
    (w : World) (p : String) (pr : Profile) (allow : ℤ) (proven : List String) (db : Db)
    → (c : Cleared w pr allow proven)
    → reconcile_protected w p pr allow proven db ≡ run_live w p c.fingerprint proven db
unfolding reconcile_protected preflight
reconcile-live w p pr allow proven db c =
    rw (c.scanned, c.unique, c.planned, c.stable, eq_refl c.fingerprint, c.within) refl

-- A run that did not start the upload left everything as it was.
not_uploaded-nothing :
    (w : World) (p : String) (pr : Profile) (allow : ℤ) (proven : List String) (db : Db)
    → let t = reconcile_protected w p pr allow proven db in
      t.uploaded ≡ false → (t.deleted ≡ []) × (t.db ≡ db) × (t.error ≢ none)
unfolding reconcile_protected preflight run_live finish_live
not_uploaded-nothing w p pr allow proven db h = (ground arith, ground arith, ground arith)

live-deleted :
    (w : World) (p fingerprint : String) (proven : List String) (db : Db)
    → w.full_sync ≡ true
    → (run_live w p fingerprint proven db).deleted ≡ (delete_remote_paths w proven).0
unfolding run_live finish_live
live-deleted w p fingerprint proven db h = ground arith

live-failed :
    (w : World) (p fingerprint : String) (proven : List String) (db : Db)
    → w.full_sync ≡ false
    → (run_live w p fingerprint proven db).deleted ≡ []
unfolding run_live
live-failed w p fingerprint proven db h = rw h refl

-- A reconciliation deletes nothing, or what DeleteRemotePaths deletes.
deleted_cases :
    (w : World) (p : String) (pr : Profile) (allow : ℤ) (proven : List String) (db : Db)
    → let t = reconcile_protected w p pr allow proven db in
      (t.deleted ≡ []) ⊎ (t.deleted ≡ (delete_remote_paths w proven).0) × (w.full_sync ≡ true)
deleted_cases w p pr allow proven db =
    let t = reconcile_protected w p pr allow proven db in
    elim (Bool-cases t.uploaded) [
      | inr idle ↦ inl (not_uploaded-nothing w p pr allow proven db idle).0
      | inl started ↦
          let c = uploaded-Cleared w p pr allow proven db started in
          let live = ap (λ x. x.deleted) (reconcile-live w p pr allow proven db c) in
          elim (Bool-cases w.full_sync) [
            | inl full ↦ inr (live ∙ live-deleted w p c.fingerprint proven db full, full)
            | inr failed ↦ inl (live ∙ live-failed w p c.fingerprint proven db failed)
          ]
    ]

-- The remote is protected: a reconciliation uploads only if the conditions of the safety rules hold:
-- two scans, before and after the dry run, that found the same, a remote without duplicates, and no
-- more proven deletions than the limit. If it does not, it deletes nothing, leaves the database as
-- it is and ends with an error. What it deletes, in any case, is a first part of the proven deletions
-- without a refused path, and nothing if the upload failed.
pub remote_protected :
    (w : World) (p : String) (pr : Profile) (allow : ℤ) (proven : List String) (db : Db)
    → let t = reconcile_protected w p pr allow proven db in
      (t.uploaded ≡ true → Cleared w pr allow proven)
      × (t.uploaded ≡ false → (t.deleted ≡ []) × (t.db ≡ db) × (t.error ≢ none))
      × ((rest : List String) × (t.deleted ++ rest ≡ proven))
      × All (λ rel. w.refuses rel ≡ false) t.deleted
      × (w.full_sync ≡ false → t.deleted ≡ [])
remote_protected w p pr allow proven db = (
  uploaded-Cleared w p pr allow proven db,
  not_uploaded-nothing w p pr allow proven db,
  elim (deleted_cases w p pr allow proven db) [
    | inl nothing ↦ (proven, rw nothing refl)
    | inr (same, full) ↦ let (rest, e) = delete_remote_paths-prefix w proven in (rest, rw same e)
  ],
  elim (deleted_cases w p pr allow proven db) [
    | inl nothing ↦ rw nothing tt
    | inr (same, full) ↦ rw same (delete_remote_paths-accepted w proven)
  ],
  λ failed. elim (deleted_cases w p pr allow proven db) [
    | inl nothing ↦ nothing
    | inr (same, full) ↦ ground arith
  ],
)
