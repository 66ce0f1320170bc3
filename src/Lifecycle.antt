-- ===== src/Lifecycle.antt =====
-- The life of a profile: internal/state/profiles.go, and finalizeDeletions of
-- internal/cli/worker.go. The rows that only the compiler reads are not modelled.
pub mod Deletion
use gd_sync_harness.Prelude.{
  ℕ, ℤ, String, Bool, true, false, ◌||◌, none, some, List, [], ◌∷◌, str_eq, is_some, if◌then◌else◌,
}
use gd_sync_harness.Db.Table.{Table, update_row, delete_where}
use gd_sync_harness.Db.Schema.{
  Db, Profile, Runtime, CommittedPolicy, Result, ok, err, not_found, constraint, id_exists,
  id_tombstoned, not_tombstoned, RefreshState, gitignore,
}
use gd_sync_harness.Sync.{new_row}
use gd_sync_harness.Events.{clear_pending}

-- INSERT, where no row has the key yet
abbrev insert_row {ℓ} : {V : Type ℓ} → String → V → Table V → Table V
insert_row k v t j = if str_eq k j then some v else t j

-- DELETE FROM t WHERE profile_id = k
abbrev delete_row {ℓ} : {V : Type ℓ} → String → Table V → Table V
delete_row k t j = if str_eq k j then none else t j

new_profile : ℤ → Bool → Profile
new_profile max_delete enabled = record {
  enabled = enabled;
  tombstoned = false;
  deletion_requested_at = none;
  deleted_at = none;
  max_delete = max_delete;
}

-- Generation one is the epoch of the initial synchronisation.
new_runtime : Runtime
new_runtime = record {
  source_generation = 1;
  reconcile_requested = false;
  last_fast_success = none;
  last_reconcile_success = none;
  last_error = none;
}

new_policy : String → ℕ → CommittedPolicy
new_policy policy_hash now = record {
  policy_source = gitignore;
  policy_hash = policy_hash;
  committed_generation = 1;
  committed_at = now;
  refresh_state = RefreshState.pending;
  refreshed_policy_hash = none;
}

-- A left-over row of the profile id breaks a primary key.
unfoldable pub has_rows : String → Db → Bool
has_rows p db = is_some (db.runtime p) || is_some (db.sync_state p) || is_some (db.policy p)

-- The INSERTs of createProfile.
unfoldable pub created : String → ℤ → Bool → String → ℕ → Db → Db
unfolding new_profile new_runtime new_policy
created p max_delete enabled policy_hash now db = record db {
  profiles = insert_row p (new_profile max_delete enabled) db.profiles;
  runtime = insert_row p new_runtime db.runtime;
  sync_state = insert_row p (new_row 1) db.sync_state;
  policy = insert_row p (new_policy policy_hash now) db.policy;
}

-- createProfile of a profile that is not tombstoned
unfoldable pub create_profile : String → ℤ → Bool → String → ℕ → Db → Result (Unit {0}) × Db
unfolding created has_rows
create_profile p max_delete enabled policy_hash now db = elim (db.profiles p) [
  | some pr ↦ (err (if pr.tombstoned then id_tombstoned else id_exists), db)
  | none ↦
      if has_rows p db
      then (err constraint, db)
      else (ok tt, created p max_delete enabled policy_hash now db)
]

-- An UPDATE of one profile, with checkRows behind it.
abbrev checked_update : String → (Profile → Profile) → Db → Result (Unit {0}) × Db
checked_update p f db = elim (db.profiles p) [
  | none ↦ (err not_found, db)
  | some pr ↦ (ok tt, record db { profiles = update_row p f db.profiles })
]

-- SetProfileEnabled
unfoldable pub set_profile_enabled : String → Bool → Db → Result (Unit {0}) × Db
set_profile_enabled p enabled db = checked_update p (λ pr. record pr { enabled = enabled }) db

-- UpdateProfileFields, of a row that need not exist
unfoldable pub update_profile_fields : String → Bool → ℤ → Db → Db
update_profile_fields p enabled max_delete db = record db {
  profiles =
      update_row p (λ pr. record pr { enabled = enabled; max_delete = max_delete }) db.profiles;
}

-- TombstoneProfile
unfoldable pub tombstone_profile : String → ℕ → Db → Result (Unit {0}) × Db
tombstone_profile p now db =
    checked_update p (λ pr. record pr { enabled = false; deleted_at = some now; tombstoned = true })
      db

-- RestoreProfile
unfoldable pub restore_profile : String → Db → Db
restore_profile p db = record db {
  profiles =
      update_row p
        (λ pr. record pr { tombstoned = false; deleted_at = none; deletion_requested_at = none })
        db.profiles;
}

-- RequestProfileDeletion
unfoldable pub request_profile_deletion : String → ℕ → Db → Result (Unit {0}) × Db
request_profile_deletion p now db =
    checked_update p (λ pr. record pr { enabled = false; deletion_requested_at = some now }) db

-- CancelProfileDeletion
unfoldable pub cancel_profile_deletion : String → Db → Db
cancel_profile_deletion p db = record db {
  profiles = update_row p (λ pr. record pr { deletion_requested_at = none }) db.profiles;
}

-- The deletes of ForgetProfile, with those that the foreign keys cascade.
unfoldable pub delete_profile : String → Db → Db
delete_profile p db = record db {
  profiles = delete_row p db.profiles;
  sync_state = delete_row p db.sync_state;
  runtime = delete_row p db.runtime;
  policy = delete_row p db.policy;
  sync_runs = delete_where (λ r. str_eq r.profile_id p) db.sync_runs;
  pending_events = delete_where (λ e. str_eq e.profile_id p) db.pending_events;
}

-- ForgetProfile
unfoldable pub forget_profile : String → Db → Result (Unit {0}) × Db
unfolding delete_profile
forget_profile p db = elim (db.profiles p) [
  | none ↦ (err not_found, db)
  | some pr ↦ if pr.tombstoned then (ok tt, delete_profile p db) else (err not_tombstoned, db)
]

-- The rest of the turn, after TombstoneProfile.
conclude : String → Result (Unit {0}) × Db → Result (Unit {0}) × Db
unfolding cancel_profile_deletion
conclude p (err e, db) = (err e, db)
conclude p (ok u, db) = (ok tt, cancel_profile_deletion p db)

-- One turn of the loop of finalizeDeletions, on a profile whose deletion was requested.
unfoldable pub finalize_deletion : String → ℕ → Db → Result (Unit {0}) × Db
unfolding clear_pending tombstone_profile conclude
finalize_deletion p now db = elim (db.sync_state p) [
  | none ↦ (ok tt, db)
  | some s ↦
      if is_some s.current_run_id
      then (ok tt, db)
      else conclude p (tombstone_profile p now (clear_pending p db))
]

-- finalizeDeletions, over the ids that DeletingProfiles returned; an error ends the loop
unfoldable pub finalize_deletions : List String → ℕ → Db → Result (Unit {0}) × Db
unfolding finalize_deletion
finalize_deletions [] now db = (ok tt, db)
finalize_deletions (p ∷ ps) now db =
    let (r, db1) = finalize_deletion p now db in
    let rest = finalize_deletions ps now db1 in elim r [ err e ↦ (err e, db1) | ok u ↦ rest ]
