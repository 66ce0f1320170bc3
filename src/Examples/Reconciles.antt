-- ===== src/Examples/Reconciles.antt =====
-- A reconciliation with one proven deletion, during which the source changes.
use gd_sync_harness.Prelude.{
  ◌≡◌, ◌≢◌, ◌+◌, String, true, false, none, some, List, [], ◌∷◌, ◌++◌, All, pos, refl,
}
use gd_sync_harness.Db.Schema.{Db}
use gd_sync_harness.Sync.{raise_desired}
use gd_sync_harness.Reconcile.{World, reconcile_protected}
use gd_sync_harness.Reconcile.Safety.{Cleared, remote_protected}
use gd_sync_harness.Reconcile.Success.{reconcile_succeeds}
use gd_sync_harness.Examples.Data.{live_profile, settled, source_row, db_of}

abbrev scanned : String
scanned = "1:a.md:5:7;"

abbrev found_later : String
found_later = "1:a.md:6:8;"

abbrev changing : World
changing = record {
  first_scan = some scanned;
  second_scan = some scanned;
  third_scan = some found_later;
  duplicates = some false;
  dry_run = true;
  full_sync = true;
  refuses = λ rel. false;
  deletes = λ rel. true;
}

abbrev old : List String
old = "old.md" ∷ []

abbrev before : Db
before = db_of settled []

abbrev cleared : Cleared changing live_profile (pos 0) old
cleared = record {
  fingerprint = scanned;
  scanned = refl;
  stable = refl;
  unique = refl;
  planned = refl;
  within = refl;
}

remote_protected_example :
    ((reconcile_protected changing "p" live_profile (pos 0) old before).uploaded ≡ true
      → Cleared changing live_profile (pos 0) old)
    × ((reconcile_protected changing "p" live_profile (pos 0) old before).uploaded ≡ false
        → ((reconcile_protected changing "p" live_profile (pos 0) old before).deleted ≡ [])
          × ((reconcile_protected changing "p" live_profile (pos 0) old before).db ≡ before)
          × ((reconcile_protected changing "p" live_profile (pos 0) old before).error ≢ none))
    × ((rest : List String) × ((reconcile_protected changing "p" live_profile
              (pos 0)
              old
              before).deleted
            ++ rest
          ≡ old))
    × All
        (λ rel. changing.refuses rel ≡ false)
        (reconcile_protected changing "p" live_profile (pos 0) old before).deleted
    × (changing.full_sync ≡ false
        → (reconcile_protected changing "p" live_profile (pos 0) old before).deleted ≡ [])
remote_protected_example = remote_protected changing "p" live_profile (pos 0) old before

reconcile_succeeds_example :
    ((reconcile_protected changing "p" live_profile (pos 0) old before).error ≡ none)
    × ((reconcile_protected changing "p" live_profile (pos 0) old before).deleted ≡ old)
    × (found_later ≡ scanned
        → (reconcile_protected changing "p" live_profile (pos 0) old before).db ≡ before)
    × (found_later ≢ scanned
        → ((reconcile_protected changing "p" live_profile (pos 0) old before).db.sync_state "p"
            ≡ some (raise_desired (source_row.source_generation + 1) settled))
          × ((reconcile_protected changing "p" live_profile (pos 0) old before).db.runtime "p"
              ≡ some (record source_row { source_generation = source_row.source_generation + 1 })))
reconcile_succeeds_example =
    reconcile_succeeds changing "p" live_profile (pos 0) old before found_later source_row settled
      cleared refl ((refl, refl), tt) refl refl refl
