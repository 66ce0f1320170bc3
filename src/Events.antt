-- ===== src/Events.antt =====
-- internal/state/events.go: the queue of file changes, with the generations of a profile.
pub mod Lanes
pub mod Versions
use gd_sync_harness.Prelude.{
  ℕ, suc, max, String, Bool, true, false, not, ◌&&◌, ◌||◌, Option, none, some, List, [], ◌∷◌,
  str_eq, ltb, leb, ◌==◌, is_some, length, if◌then◌else◌,
}
use gd_sync_harness.Db.Table.{delete_where, select_where}
use gd_sync_harness.Db.Schema.{
  Db, ProfileSyncState, Runtime, PendingEvent, EventKind, create, modify, delete, rename, other,
  CommittedPolicy, Result, ok, err, not_found,
}
use gd_sync_harness.Sync.{
  update_sync, update_runtime, request_runtime, raise_desired, open_window, at_least_one,
}

-- IsSafeFastKind
abbrev pub is_safe_fast_kind : EventKind → Bool
is_safe_fast_kind create = true
is_safe_fast_kind modify = true
is_safe_fast_kind _ = false

abbrev pub is_of : String → PendingEvent → Bool
is_of p e = str_eq e.profile_id p

-- The UNIQUE key of pending_events.
abbrev pub is_at : String → String → PendingEvent → Bool
is_at p path e = str_eq e.profile_id p && str_eq e.path path

-- ON CONFLICT (profile_id, path) DO UPDATE, or an insertion at the end.
unfoldable pub upsert :
    PendingEvent → (PendingEvent → PendingEvent) → List PendingEvent → List PendingEvent
upsert new merge [] = new ∷ []
upsert new merge (e ∷ es) =
    let rest = upsert new merge es in
    if is_at new.profile_id new.path e then merge e ∷ es else e ∷ rest

abbrev pub merge_plain : PendingEvent → PendingEvent → PendingEvent
merge_plain new e = record e {
  event_kind = new.event_kind;
  last_seen = new.last_seen;
  source_generation = max e.source_generation new.source_generation;
}

abbrev pub merge_observed : PendingEvent → PendingEvent → PendingEvent
merge_observed new e = record (merge_plain new e) {
  observed_policy_hash = new.observed_policy_hash;
  observed_policy_gen = new.observed_policy_gen;
  policy_context_known = new.policy_context_known;
}

-- UpsertPendingEvent
unfoldable pub upsert_pending_event : String → String → EventKind → ℕ → ℕ → Db → Db
unfolding upsert
upsert_pending_event p path kind generation now db =
    let new : PendingEvent = record {
      profile_id = p;
      path = path;
      event_kind = kind;
      first_seen = now;
      last_seen = now;
      source_generation = generation;
      observed_policy_hash = none;
      observed_policy_gen = none;
      policy_context_known = false;
    } in
    record db { pending_events = upsert new (merge_plain new) db.pending_events }

-- UpsertDeleteEvent
unfoldable pub upsert_delete_event : String → String → ℕ → ℕ → Db → Db
unfolding upsert_pending_event
upsert_delete_event p path generation now db = upsert_pending_event p path delete generation now db

-- The committed policy that is recorded with an event. An empty `policy_hash` asks for the hash of
-- the row; without a row nothing is known.
abbrev pub observed : String → Option CommittedPolicy → PendingEvent → PendingEvent
observed policy_hash none e = e
observed policy_hash (some c) e = record e {
  observed_policy_hash = some (if str_eq policy_hash "" then c.policy_hash else policy_hash);
  observed_policy_gen = some c.committed_generation;
  policy_context_known = true;
}

unfoldable pub bump : Runtime → Runtime
bump r = record r { source_generation = suc r.source_generation }

-- The bootstrap test of recordEvent: never succeeded, nothing wanted, nothing running.
abbrev pub needs_bootstrap : ProfileSyncState → Bool
needs_bootstrap s =
    not (is_some s.last_success_generation)
    && s.desired_generation == 0
    && not (is_some s.current_run_id)

-- The statements that turn an event into the intent of a full reconciliation.
unfoldable pub collapse : String → ℕ → ℕ → Db → Db
unfolding raise_desired open_window
collapse p generation now db =
    let db1 = update_sync p (λ s. open_window now (raise_desired generation s)) db in
    let db2 = update_runtime p request_runtime db1 in
    record db2 { pending_events = delete_where (is_of p) db2.pending_events }

unfoldable pub new_event : String → String → EventKind → ℕ → ℕ → PendingEvent
new_event p path kind generation now = record {
  profile_id = p;
  path = path;
  event_kind = kind;
  first_seen = now;
  last_seen = now;
  source_generation = generation;
  observed_policy_hash = none;
  observed_policy_gen = none;
  policy_context_known = false;
}

-- The event in the fast lane, with the policy that was committed when it was seen.
unfoldable pub fast_event : String → String → EventKind → String → ℕ → ℕ → Db → Db
unfolding new_event upsert
fast_event p path kind policy_hash generation now db =
    let new = observed policy_hash (db.policy p) (new_event p path kind generation now) in
    record db { pending_events = upsert new (merge_observed new) db.pending_events }

-- RecordEvent and RecordEventWithPolicy; the generation that the event was given
unfoldable pub record_event : String → String → EventKind → Bool → String → ℕ → Db → Result ℕ × Db
unfolding bump collapse fast_event
record_event p path kind is_full policy_hash now db = elim (db.runtime p) [
  | none ↦ (err not_found, db)
  | some r ↦ elim (db.sync_state p) [
    | none ↦ (err not_found, db)
    | some s ↦ (
      ok (suc r.source_generation),
      if is_full || not (is_safe_fast_kind kind) || needs_bootstrap s
          then collapse p (suc r.source_generation) now (update_runtime p bump db)
          else fast_event p path kind policy_hash (suc r.source_generation) now
              (update_runtime p bump db),
    )
  ]
]

-- PromoteToFullReconcile of syncstate.go
unfoldable pub promote_to_full_reconcile : String → ℕ → ℕ → Db → Db
unfolding collapse
promote_to_full_reconcile p generation now db = collapse p (at_least_one generation) now db

-- CountPending
unfoldable pub count_pending : String → Db → ℕ
count_pending p db = length (select_where (is_of p) db.pending_events)

abbrev pub is_destructive : EventKind → Bool
is_destructive delete = true
is_destructive rename = true
is_destructive other = true
is_destructive _ = false

-- HasDestructivePending
unfoldable pub has_destructive_pending : String → Db → Bool
has_destructive_pending p db =
    ltb 0 (length (select_where (λ e. is_of p e && is_destructive e.event_kind) db.pending_events))

-- ClearPending
unfoldable pub clear_pending : String → Db → Db
clear_pending p db = record db { pending_events = delete_where (is_of p) db.pending_events }

-- ClearPendingPaths
unfoldable pub clear_pending_paths : String → List String → Db → Db
clear_pending_paths p [] db = db
clear_pending_paths p (path ∷ paths) db =
    clear_pending_paths p paths
      (record db { pending_events = delete_where (is_at p path) db.pending_events })

-- The version test of ClearPendingEvents.
abbrev pub is_version : String → PendingEvent → PendingEvent → Bool
is_version p e f = is_at p e.path f && leb f.source_generation e.source_generation

-- ClearPendingEvents
unfoldable pub clear_pending_events : String → List PendingEvent → Db → Db
clear_pending_events p [] db = db
clear_pending_events p (e ∷ es) db =
    clear_pending_events p es
      (record db { pending_events = delete_where (is_version p e) db.pending_events })
