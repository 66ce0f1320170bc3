-- ===== src/Sync/Claim.antt =====
-- ClaimRun of internal/state/syncstate.go.
use gd_sync_harness.Prelude.{
  ℕ, ℤ, pos, String, Bool, true, false, not, ◌&&◌, ◌||◌, Option, none, some, [], ◌∷◌, ◌++◌, str_eq,
  ltb, ◌==◌, is_some, is_pos, is_zero, if◌then◌else◌,
}
use gd_sync_harness.Db.Table.{exists_where}
use gd_sync_harness.Db.Schema.{
  Db, Profile, ProfileSyncState, SyncRun, SyncState, RetryClass, Err, not_found, constraint,
  running, initial, full, initializing, syncing, error, terminal, retryable, retryable_limited,
  queued,
}
use gd_sync_harness.Sync.{update_sync, has_debt}
use gd_sync_harness.Sync.Intent.{PendingManual, pending_of}

-- ClaimResult, less ClaimOK, which comes with the run.
pub data ClaimResult : Type 0 where
  active_run no_debt gate_blocked profile_inactive deferred : ClaimResult

-- What ClaimRun returns: a run, a reason why there is none, or an error.
pub data Claim : Type 0 where
  claimed : SyncRun → Claim
  refused : ClaimResult → Claim
  failed : Err → Claim

abbrev pub is_error : SyncState → Bool
is_error error = true
is_error _ = false

abbrev is_terminal : Option RetryClass → Bool
is_terminal (some terminal) = true
is_terminal _ = false

abbrev is_retryable : Option RetryClass → Bool
is_retryable (some retryable) = true
is_retryable (some retryable_limited) = true
is_retryable _ = false

abbrev pub is_before : ℕ → Option ℕ → Bool
is_before now none = false
is_before now (some t) = ltb now t

unfoldable pub gate_closed : ProfileSyncState → ℕ → Bool
gate_closed s now =
    is_error s.state
    && (is_terminal s.retry_classification
        || (is_retryable s.retry_classification && is_before now s.next_retry_at))

-- pending != nil && pending.Generation == target
unfoldable pub applies : PendingManual → ProfileSyncState → Bool
applies m s = m.generation == s.desired_generation

unfoldable pub in_window : ProfileSyncState → ℕ → Bool
unfolding applies pending_of
in_window s now =
    let m = pending_of s in
    not (applies m s && m.bypass_debounce) && is_before now s.reconcile_not_before_at

-- The reasons to return without a run, in the order of the code.
unfoldable pub refusal : Profile → ProfileSyncState → ℕ → Option ClaimResult
unfolding gate_closed in_window
refusal pr s now =
    if is_some s.current_run_id
    then some active_run
    else if is_some pr.deletion_requested_at || not pr.enabled
    then some profile_inactive
    else if not (has_debt s)
    then some no_debt
    else if gate_closed s now
    then some gate_blocked
    else if in_window s now
    then some deferred
    else none

unfoldable pub effective_delete : Profile → ProfileSyncState → ℤ
unfolding applies pending_of
effective_delete pr s =
    let m = pending_of s in
    let granted = (if applies m s then m.allow_deletes else pos 0) in
    if is_zero granted then pr.max_delete else granted

unfoldable pub manual_override : ProfileSyncState → Option ℤ
unfolding applies pending_of
manual_override s =
    let m = pending_of s in
    if applies m s && is_pos m.allow_deletes then some m.allow_deletes else none

unfoldable pub new_run : String → String → Profile → ProfileSyncState → ℕ → SyncRun
unfolding effective_delete manual_override
new_run p run_id pr s now = record {
  id = run_id;
  profile_id = p;
  kind = if is_some s.last_success_generation then full else initial;
  target_generation = s.desired_generation;
  status = running;
  phase = queued;
  started_at = now;
  completed_at = none;
  effective_max_delete = effective_delete pr s;
  manual_delete_override = manual_override s;
  upload_started_at = none;
  last_progress_at = none;
  last_heartbeat_at = none;
  files_discovered = 0;
  error_code = "";
  error_classification = none;
  error = "";
}

-- The manual metadata is consumed with the claim that it applies to.
unfoldable pub consume : ProfileSyncState → ProfileSyncState
unfolding applies pending_of
consume s =
    if applies (pending_of s) s
    then record s {
      pending_manual_generation = none;
      pending_manual_allow_deletes = none;
      pending_manual_bypass_debounce = false;
    }
    else s

unfoldable pub take : String → ℕ → ProfileSyncState → ProfileSyncState
take run_id now s = record s {
  current_run_id = some run_id;
  state = if is_some s.last_success_generation then syncing else initializing;
  phase = some queued;
  last_progress_at = some now;
  last_heartbeat_at = some now;
  reconcile_not_before_at = none;
  reconcile_deadline_at = none;
}

-- The writes of a successful claim; `id` is the primary key of sync_runs.
unfoldable pub start_run : String → String → Profile → ProfileSyncState → ℕ → Db → Claim × Db
start_run p run_id pr s now db =
    if exists_where (λ r. str_eq r.id run_id) db.sync_runs then (failed constraint, db) else (
      claimed (new_run p run_id pr s now),
      update_sync p (λ t. take run_id now (consume t))
          (record db { sync_runs = db.sync_runs ++ new_run p run_id pr s now ∷ [] }),
    )

claim_row : String → String → Profile → ProfileSyncState → ℕ → Db → Claim × Db
unfolding start_run
claim_row p run_id pr s now db = elim (refusal pr s now) [
  | some why ↦ (refused why, db)
  | none ↦ start_run p run_id pr s now db
]

-- ClaimRun
unfoldable pub claim_run : String → String → ℕ → Db → Claim × Db
unfolding claim_row
claim_run p run_id now db = elim (db.profiles p) [
  | none ↦ (refused profile_inactive, db)
  | some pr ↦ if pr.tombstoned then (refused profile_inactive, db) else elim (db.sync_state p) [
    | none ↦ (failed not_found, db)
    | some s ↦ claim_row p run_id pr s now db
  ]
]
