-- ===== src/Examples/Data.antt =====
-- A profile "p" with its rows, for the examples.
use gd_sync_harness.Prelude.{
  pos, String, true, false, none, some, List, [], ◌∷◌, str_eq, if◌then◌else◌,
}
use gd_sync_harness.Db.Table.{Table}
use gd_sync_harness.Db.Schema.{
  Db, Profile, ProfileSyncState, Runtime, CommittedPolicy, PendingEvent, RetryClass, RefreshState,
  gitignore, syncing, ready, modify,
}
use gd_sync_harness.Db.Ledger.{Store, ManifestEntry, EntryState, PruneRequest, PruneTarget}
use gd_sync_harness.Sync.Intent.{ManualReconcileIntent}
use gd_sync_harness.Sync.Commit.{RunFailure}

abbrev pub only {ℓ} : {V : Type ℓ} → String → V → Table V
only k v j = if str_eq k j then some v else none

abbrev pub live_profile : Profile
live_profile = record {
  enabled = true;
  tombstoned = false;
  deletion_requested_at = none;
  deleted_at = none;
  max_delete = pos 10;
}

-- A settled profile: the last success covers generation 7, the source has given out 3.
abbrev pub settled : ProfileSyncState
settled = record {
  desired_generation = 7;
  last_success_generation = some 7;
  initialized_at = some 1;
  last_success_at = some 2;
  current_run_id = none;
  state = ready;
  phase = none;
  retry_classification = none;
  consecutive_failures = 0;
  next_retry_at = none;
  last_progress_at = none;
  last_heartbeat_at = none;
  reconcile_not_before_at = none;
  reconcile_deadline_at = none;
  limited_failures = 0;
  last_error_code = none;
  last_error = none;
  pending_manual_generation = none;
  pending_manual_allow_deletes = none;
  pending_manual_bypass_debounce = false;
}

-- The same profile in debt, and with a run.
abbrev pub owing : ProfileSyncState
owing = record settled { desired_generation = 8; state = syncing }

abbrev pub busy : ProfileSyncState
busy = record owing { current_run_id = some "r1" }

abbrev pub source_row : Runtime
source_row = record {
  source_generation = 3;
  reconcile_requested = false;
  last_fast_success = none;
  last_reconcile_success = none;
  last_error = none;
}

abbrev pub policy_row : CommittedPolicy
policy_row = record {
  policy_source = gitignore;
  policy_hash = "h1";
  committed_generation = 1;
  committed_at = 0;
  refresh_state = RefreshState.ready;
  refreshed_policy_hash = some "h1";
}

abbrev pub note_event : PendingEvent
note_event = record {
  profile_id = "p";
  path = "note.md";
  event_kind = modify;
  first_seen = 4;
  last_seen = 4;
  source_generation = 3;
  observed_policy_hash = some "h1";
  observed_policy_gen = some 1;
  policy_context_known = true;
}

abbrev pub db_of : ProfileSyncState → List PendingEvent → Db
db_of s es = record {
  profiles = only "p" live_profile;
  sync_state = only "p" s;
  runtime = only "p" source_row;
  policy = only "p" policy_row;
  sync_runs = [];
  pending_events = es;
}

abbrev pub manual_ten : ManualReconcileIntent
manual_ten = record { allow_deletes = pos 10; bypass_debounce = true }

abbrev pub failure_of : RetryClass → RunFailure
failure_of c = record { code = "network"; classification = c; message = "timeout" }

abbrev pub entry : String → EntryState → ManifestEntry
entry path state = record {
  profile_id = "p";
  rel_path = path;
  size = 1;
  mod_time = pos 1;
  hash = "x";
  state = state;
  suppressed_policy_hash = (elim state [ EntryState.suppressed ↦ some "h1" | _ ↦ none ]);
  suppressed_generation = (elim state [ EntryState.suppressed ↦ some 1 | _ ↦ none ]);
}

abbrev pub store_of : List PruneRequest → List PruneTarget → Store
store_of rs ts = record {
  db = db_of settled [];
  manifest = entry "a.md" EntryState.active ∷ entry "b.md" EntryState.suppressed ∷ [];
  prune_requests = rs;
  prune_targets = ts;
}
