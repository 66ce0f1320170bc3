-- ===== src/Reconcile.antt =====
-- A full reconciliation under the safety rules: reconcileProtected, PreflightProtected and
-- markDirtyIfChangedProtected of internal/sync/reconcile.go, effectiveDeleteLimit and
-- DeleteRemotePaths of internal/sync/service.go.
--
-- What the file system and rclone answer is an input, a `World`. A scan answers with the fingerprint
-- of what it found, which the source computes from the entries. What the reconciliation does to the
-- outside is its result, a `Trace`. The counts of the dry run, which the source hands on for display,
-- are left out.
pub mod Safety
pub mod Success
use gd_sync_harness.Prelude.{
  ℕ, ◌+◌, ℤ, is_pos, lt_count, String, Bool, true, false, not, Option, none, some, List, [], ◌∷◌,
  str_eq, length, if◌then◌else◌,
}
use gd_sync_harness.Db.Schema.{Db, Profile, Phase, Runtime, planning, uploading, deleting}
use gd_sync_harness.Sync.{update_runtime, ensure_reconcile_generation}
use mathlib.Core.Option

pub data ReconcileError : Type 0 where
  scan_failed remote_failed dry_run_failed remote_duplicates source_unstable delete_budget_exceeded
        upload_failed malformed_target delete_failed runtime_missing :
      ReconcileError

pub record World : Type 0 where
  -- The scan before the dry run, the one after it, and the one after the live sync; none is an error.
  pub first_scan : Option String
  pub second_scan : Option String
  pub third_scan : Option String
  -- remoteDuplicates
  pub duplicates : Option Bool
  -- Whether DryRunSyncProtected and FullSyncProtected succeed.
  pub dry_run : Bool
  pub full_sync : Bool
  -- Whether the target is refused, as malformed or reserved, and whether `rclone deletefile` works.
  pub refuses : String → Bool
  pub deletes : String → Bool

-- PreflightResult
pub record PreflightResult : Type 0 where
  pub remote_dup : Bool
  pub source_stable : Bool
  pub source_fingerprint : String

pub data Preflight : Type 0 where
  passed : PreflightResult → Preflight
  stopped : ReconcileError → Preflight

-- The second half of PreflightProtected, from the dry run on.
unfoldable pub compare_scans : World → String → Preflight
compare_scans w fp1 = if not w.dry_run then stopped dry_run_failed else (elim w.second_scan [
  | none ↦ stopped scan_failed
  | some fp2 ↦
      passed
        (record { remote_dup = false; source_stable = str_eq fp1 fp2; source_fingerprint = fp1 })
])

-- PreflightProtected
unfoldable pub preflight : World → Preflight
unfolding compare_scans
preflight w = elim w.first_scan [
  | none ↦ stopped scan_failed
  | some fp1 ↦ elim w.duplicates [
    | none ↦ stopped remote_failed
    | some dup ↦
        if dup
        then passed (record { remote_dup = true; source_stable = false; source_fingerprint = fp1 })
        else compare_scans w fp1
  ]
]

-- effectiveDeleteLimit
abbrev pub effective_delete_limit : ℤ → Profile → ℤ
effective_delete_limit allow_deletes pr =
    if is_pos allow_deletes then allow_deletes else pr.max_delete

-- DeleteRemotePaths: the paths that are deleted, and the error that ends it.
unfoldable pub delete_remote_paths : World → List String → List String × Option ReconcileError
delete_remote_paths w [] = ([], none)
delete_remote_paths w (rel ∷ paths) =
    let rest = delete_remote_paths w paths in
    if w.refuses rel
    then ([], some malformed_target)
    else if w.deletes rel
    then (rel ∷ rest.0, rest.1)
    else ([], some delete_failed)

abbrev next_generation : Runtime → Runtime
next_generation r = record r { source_generation = r.source_generation + 1 }

-- BumpGeneration: the new generation, or none where the profile has no runtime row.
abbrev pub bump_generation : String → Db → Db × Option ℕ
bump_generation p db =
    let db1 = update_runtime p next_generation db in
    (db1, Option.map (λ r. r.source_generation) (db1.runtime p))

-- markDirtyIfChangedProtected
unfoldable pub mark_dirty_if_changed : World → String → String → Db → Db × Option ReconcileError
mark_dirty_if_changed w p fingerprint db = elim w.third_scan [
  | none ↦ (db, some scan_failed)
  | some fp ↦
      if str_eq fp fingerprint
      then (db, none)
      else (let (db1, bumped) = bump_generation p db in
          elim bumped [
            | none ↦ (db1, some runtime_missing)
            | some gen ↦ (ensure_reconcile_generation p gen db1, none)
          ])
]

-- What a reconciliation has done: the phases it reported, whether it started the upload, the paths
-- it deleted on the remote, the database, and the error that it ended with, if any.
pub record Trace : Type 0 where
  pub phases : List Phase
  pub uploaded : Bool
  pub deleted : List String
  pub db : Db
  pub error : Option ReconcileError

abbrev failed_early : Db → ReconcileError → Trace
failed_early db e = record {
  phases = planning ∷ [];
  uploaded = false;
  deleted = [];
  db = db;
  error = some e;
}

abbrev phases_of : List String → List Phase
phases_of [] = planning ∷ uploading ∷ []
phases_of (x ∷ xs) = planning ∷ uploading ∷ deleting ∷ []

-- From the deletions on.
unfoldable pub finish_live : World → String → String → List String → Db → Trace
unfolding delete_remote_paths mark_dirty_if_changed
finish_live w p fingerprint proven db =
    let (gone, failure) = delete_remote_paths w proven in
    let marked = mark_dirty_if_changed w p fingerprint db in
    elim failure [
      | some e ↦ record {
        phases = phases_of proven;
        uploaded = true;
        deleted = gone;
        db = db;
        error = some e;
      }
      | none ↦ record {
        phases = phases_of proven;
        uploaded = true;
        deleted = gone;
        db = marked.0;
        error = marked.1;
      }
    ]

-- From the upload on.
unfoldable pub run_live : World → String → String → List String → Db → Trace
unfolding finish_live
run_live w p fingerprint proven db =
    if w.full_sync then finish_live w p fingerprint proven db else record {
      phases = planning ∷ uploading ∷ [];
      uploaded = true;
      deleted = [];
      db = db;
      error = some upload_failed;
    }

-- reconcileProtected
unfoldable pub reconcile_protected : World → String → Profile → ℤ → List String → Db → Trace
unfolding preflight run_live
reconcile_protected w p pr allow_deletes proven db = elim (preflight w) [
  | stopped e ↦ failed_early db e
  | passed pre ↦
      if pre.remote_dup
      then failed_early db remote_duplicates
      else if not pre.source_stable
      then failed_early db source_unstable
      else if lt_count (effective_delete_limit allow_deletes pr) (length proven)
      then failed_early db delete_budget_exceeded
      else run_live w p pre.source_fingerprint proven db
]
