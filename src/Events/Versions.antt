-- ===== src/Events/Versions.antt =====
-- Which events of the queue a deletion by version removes: ClearPendingEvents, and the end of a
-- successful run.
use mathlib.Core.List.{Memᴰ}
use mathlib.Core.List.Memᴰ.{head, tail}
use gd_sync_harness.Prelude.{
  ℕ, suc, ◌≤◌, ◌<◌, String, ◌≡◌, refl, sym, Bool, true, false, inl, inr, none, some, List, [], ◌∷◌,
  All, arith, eq_refl, eq_iff, ◌∙◌, subst, str_eq, Bool-cases, Option-cases, ◌↔◌,
}
use gd_sync_harness.Db.Table.{delete_where}
use gd_sync_harness.Db.Table.Laws.{mem-delete_where, delete_where-mem}
use gd_sync_harness.Db.Schema.{Db, ProfileSyncState, Runtime, PendingEvent, EventKind}
use gd_sync_harness.Sync.Commit.{commit_run_success, is_covered}
use gd_sync_harness.Events.{
  record_event, new_event, observed, merge_observed, upsert, is_at, is_version,
  clear_pending_events,
}
use gd_sync_harness.Events.Lanes.{goes_full}

-- ClearPendingEvents keeps exactly the events that none of the handled versions covers: an event of
-- the same profile and path is removed only by a version with its generation or a later one.
pub clear_versions_exact :
    (p : String) (es : List PendingEvent) (db : Db) (e : PendingEvent)
    → Memᴰ e (clear_pending_events p es db).pending_events
      ↔ (Memᴰ e db.pending_events × All (λ v. is_version p v e ≡ false) es)
unfolding clear_pending_events
clear_versions_exact p [] db e = (λ m. (m, tt), λ h. h.0)
clear_versions_exact p (v ∷ es) db e = (
  λ m.
      let (there, rest) = (clear_versions_exact p es db1 e).0 m in
      let (before, first) = delete_where-mem (is_version p v) e db.pending_events there in
      (before, (first, rest)),
  λ h.
      (clear_versions_exact p es db1 e).1
        (mem-delete_where (is_version p v) e db.pending_events h.1.0 h.0, h.1.1),
)
  where
    db1 : Db
    db1 = record db { pending_events = delete_where (is_version p v) db.pending_events }

not_covered :
    (p : String) (target : ℕ) (e : PendingEvent)
    → is_covered p target e ≡ false
    → e.profile_id ≡ p
    → target < e.source_generation
not_covered p target e fails same = ground (arith, eq_iff e.profile_id p)

covered_not :
    (p : String) (target : ℕ) (e : PendingEvent)
    → (e.profile_id ≡ p → target < e.source_generation)
    → is_covered p target e ≡ false
covered_not p target e above = elim (Bool-cases (str_eq e.profile_id p)) [
  | inl b ↦ let gt = above ((eq_iff e.profile_id p).0 b) in ground arith
  | inr b ↦ ground arith
]

-- CommitRunSuccess keeps exactly the queued events that the target of the attempt does not cover:
-- those of other profiles, and those of the profile with a generation above the target.
commit_keeps_newer :
    (p id : String) (target now : ℕ) (db : Db) (e : PendingEvent)
    → Memᴰ e (commit_run_success p id target now db).pending_events
      ↔ (Memᴰ e db.pending_events × (e.profile_id ≡ p → target < e.source_generation))
unfolding commit_run_success
commit_keeps_newer p id target now db e = (
  λ m.
      let (there, fails) = delete_where-mem (is_covered p target) e db.pending_events m in
      (there, λ same. not_covered p target e fails same),
  λ h. mem-delete_where (is_covered p target) e db.pending_events (covered_not p target e h.1) h.0,
)

-- The event that is recorded is in the queue.
upsert-mem :
    (new : PendingEvent) (es : List PendingEvent)
    → (e : PendingEvent) × Memᴰ e (upsert new (merge_observed new) es)
      × (is_at new.profile_id new.path e ≡ true)
      × (e.event_kind ≡ new.event_kind)
      × (new.source_generation ≤ e.source_generation)
unfolding upsert
upsert-mem new [] =
    (new, head refl, ground (arith, eq_refl new.profile_id, eq_refl new.path), refl, omega arith)
upsert-mem new (e ∷ es) = elim (Bool-cases (is_at new.profile_id new.path e)) [
  | inl b ↦ rw b (merge_observed new e, head refl, b, refl, omega arith)
  | inr b ↦ let (v, m, at, kind, le) = upsert-mem new es in rw b (v, tail m, at, kind, le)
]

module _ (p path : String) (kind : EventKind) (is_full : Bool) (policy_hash : String) (seen : ℕ)
    (db : Db) (r : Runtime) (s : ProfileSyncState) (runtime_row : db.runtime p ≡ some r)
    (state_row : db.sync_state p ≡ some s) (fast : goes_full kind is_full s ≡ false) where
  abbrev after_event : Db
  after_event = (record_event p path kind is_full policy_hash seen db).1

  event_queue :
      (new : PendingEvent) × (after_event.pending_events
        ≡ upsert new (merge_observed new) db.pending_events)
      × (new.profile_id ≡ p)
      × (new.path ≡ path)
      × (new.event_kind ≡ kind)
      × (new.source_generation ≡ suc r.source_generation)
  unfolding record_event new_event
  event_queue = elim (Option-cases (db.policy p)) [
    | inl e ↦ (
      observed policy_hash none (new_event p path kind (suc r.source_generation) seen),
      ground arith,
      refl,
      refl,
      refl,
      refl,
    )
    | inr (c, e) ↦ (
      observed policy_hash (some c) (new_event p path kind (suc r.source_generation) seen),
      ground arith,
      refl,
      refl,
      refl,
      refl,
    )
  ]

  -- A creation or modification that takes the fast lane is queued, under its path and with a
  -- generation of at least the next one of the source, and it is still queued after a run has
  -- succeeded whose target is at most the source generation before the event.
  event_survives_run :
      (id : String) (target now : ℕ)
      → target ≤ r.source_generation
      → (e : PendingEvent) × Memᴰ e (commit_run_success p id target now after_event).pending_events
        × (is_at p path e ≡ true)
        × (e.event_kind ≡ kind)
        × (suc r.source_generation ≤ e.source_generation)
  event_survives_run id target now le =
      let (new, queue, owner, at_path, new_kind, generation) = event_queue in
      let (e, m, at, same_kind, newer) = upsert-mem new db.pending_events in
      (
        e,
        (commit_keeps_newer p id target now after_event e).1
            (subst (λ q. Memᴰ e q) (sym queue) m, λ same. omega arith),
        subst (λ x. is_at x path e ≡ true) owner
            (subst (λ x. is_at new.profile_id x e ≡ true) at_path at),
        same_kind ∙ new_kind,
        subst (λ x. x ≤ e.source_generation) generation newer,
      )
