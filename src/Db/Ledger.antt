-- ===== src/Db/Ledger.antt =====
-- The tables of the managed ledger and of the prune requests, beside those of Db/Schema:
-- internal/state/manifest.go, internal/state/prune.go.
use gd_sync_harness.Prelude.{ℕ, ℤ, String, Bool, true, false, Option, List}
use gd_sync_harness.Db.Schema.{Db}

pub data EntryState : Type 0 where
  active suppressed protected : EntryState

-- ManifestEntry, a row of manifest
pub record ManifestEntry : Type 0 where
  pub profile_id : String
  pub rel_path : String
  pub size : ℕ
  pub mod_time : ℤ
  pub hash : String
  pub state : EntryState
  pub suppressed_policy_hash : Option String
  pub suppressed_generation : Option ℕ

pub data PruneState : Type 0 where
  previewed approval_required pending running retrying completed stale superseded failed :
      PruneState

-- PruneRequest, a row of prune_requests
pub record PruneRequest : Type 0 where
  pub request_id : String
  pub profile_id : String
  pub policy_hash : String
  pub state : PruneState
  pub candidate_count : ℕ
  pub candidate_digest : String
  pub default_max_delete : ℤ
  pub authorized_limit : Option ℤ
  pub deleted_count : ℕ
  pub missing_count : ℕ
  pub last_error : Option String
  pub created_at : ℕ
  pub updated_at : ℕ
  pub completed_at : Option ℕ

pub data TargetState : Type 0 where
  pending deleted missing : TargetState

-- PruneTarget, a row of prune_targets
pub record PruneTarget : Type 0 where
  pub request_id : String
  pub rel_path : String
  pub state : TargetState
  pub attempt_count : ℕ
  pub last_error : Option String
  pub updated_at : ℕ

-- One database with all tables.
pub record Store : Type 0 where
  pub db : Db
  pub manifest : List ManifestEntry
  pub prune_requests : List PruneRequest
  pub prune_targets : List PruneTarget

abbrev pub is_active : EntryState → Bool
is_active active = true
is_active _ = false

abbrev pub is_suppressed : EntryState → Bool
is_suppressed suppressed = true
is_suppressed _ = false

abbrev pub is_protected : EntryState → Bool
is_protected protected = true
is_protected _ = false
