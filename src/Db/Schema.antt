-- ===== src/Db/Schema.antt =====
-- The rows of the state database (internal/state: migrate.go, syncstate.go, runs.go, runtime.go,
-- events.go, policy.go, manifest.go, prune.go, leases.go, profiles.go).
--
-- A time is its number of milliseconds. The source stores a time as text, in UTC and at a fixed
-- width, so that comparing two texts is comparing the two numbers. A generation is a natural
-- number: the source counts in int64 and starts at 0 or 1. Columns that no modelled operation reads
-- are left out.
use gd_sync_harness.Prelude.{ℕ, ℤ, String, Bool, Option, List}
use gd_sync_harness.Db.Table.{Table}

pub data SyncState : Type 0 where
  initializing syncing ready error : SyncState

pub data RetryClass : Type 0 where
  retryable retryable_limited terminal : RetryClass

pub data Phase : Type 0 where
  queued scanning planning uploading downloading deleting reconciling finalizing : Phase

pub data RunStatus : Type 0 where
  running succeeded failed : RunStatus

pub data RunKind : Type 0 where
  initial full : RunKind

-- profiles
pub record Profile : Type 0 where
  pub enabled : Bool
  pub tombstoned : Bool
  pub deletion_requested_at : Option ℕ
  pub deleted_at : Option ℕ
  pub max_delete : ℤ

-- profile_sync_state
pub record ProfileSyncState : Type 0 where
  pub desired_generation : ℕ
  pub last_success_generation : Option ℕ
  pub initialized_at : Option ℕ
  pub last_success_at : Option ℕ
  pub current_run_id : Option String
  pub state : SyncState
  pub phase : Option Phase
  pub retry_classification : Option RetryClass
  pub consecutive_failures : ℕ
  pub next_retry_at : Option ℕ
  pub last_progress_at : Option ℕ
  pub last_heartbeat_at : Option ℕ
  pub reconcile_not_before_at : Option ℕ
  pub reconcile_deadline_at : Option ℕ
  pub limited_failures : ℕ
  pub last_error_code : Option String
  pub last_error : Option String
  pub pending_manual_generation : Option ℕ
  pub pending_manual_allow_deletes : Option ℤ
  pub pending_manual_bypass_debounce : Bool

-- profile_runtime
pub record Runtime : Type 0 where
  pub source_generation : ℕ
  pub reconcile_requested : Bool
  pub last_fast_success : Option ℕ
  pub last_reconcile_success : Option ℕ
  pub last_error : Option String

-- sync_runs
pub record SyncRun : Type 0 where
  pub id : String
  pub profile_id : String
  pub kind : RunKind
  pub target_generation : ℕ
  pub status : RunStatus
  pub phase : Phase
  pub started_at : ℕ
  pub completed_at : Option ℕ
  pub effective_max_delete : ℤ
  pub manual_delete_override : Option ℤ
  pub upload_started_at : Option ℕ
  pub last_progress_at : Option ℕ
  pub last_heartbeat_at : Option ℕ
  pub files_discovered : ℕ
  pub error_code : String
  pub error_classification : Option RetryClass
  pub error : String

pub data EventKind : Type 0 where
  create modify delete rename other : EventKind

-- pending_events
pub record PendingEvent : Type 0 where
  pub profile_id : String
  pub path : String
  pub event_kind : EventKind
  pub first_seen : ℕ
  pub last_seen : ℕ
  pub source_generation : ℕ
  pub observed_policy_hash : Option String
  pub observed_policy_gen : Option ℕ
  pub policy_context_known : Bool

pub data RefreshState : Type 0 where
  pending running ready error : RefreshState

pub data PolicySource : Type 0 where
  gitignore legacy_migrated : PolicySource

-- profile_ignore_policy
pub record CommittedPolicy : Type 0 where
  pub policy_source : PolicySource
  pub policy_hash : String
  pub committed_generation : ℕ
  pub committed_at : ℕ
  pub refresh_state : RefreshState
  pub refreshed_policy_hash : Option String

-- The tables of the database, without those of Db/Ledger and of Leases.
pub record Db : Type 0 where
  pub profiles : Table Profile
  pub sync_state : Table ProfileSyncState
  pub runtime : Table Runtime
  pub policy : Table CommittedPolicy
  pub sync_runs : List SyncRun
  pub pending_events : List PendingEvent

-- How a statement or a transaction fails. A transaction that fails leaves the database as it was.
pub data Err : Type 0 where
  not_found constraint id_exists id_tombstoned not_tombstoned refresh_not_ready over_limit
        bad_result legacy_drop_required policy_changed invalid_candidate :
      Err

pub data Result {ℓ} (A : Type ℓ) : Type ℓ where
  ok : A → Result A
  err : Err → Result A
