-- ===== src/Watch/Handling.antt =====
-- What the watcher stores of an event.
use gd_sync_harness.Prelude.{
  ℕ, suc, ◌+◌, ◌≤◌, ◌≡◌, ◌⊎◌, String, List, ◌≢◌, sym, ◌∙◌, some_injective, false, true, some, none,
  arith, inl, inr, get_or, refl,
}
use gd_sync_harness.Db.Schema.{Db, ProfileSyncState, Runtime, EventKind, ok, modify, rename, other}
use gd_sync_harness.Sync.{debounce_ms}
use gd_sync_harness.Events.{record_event, is_destructive, count_pending}
use gd_sync_harness.Events.Lanes.{full_event_promotes}
use gd_sync_harness.Watch.{classify}
use gd_sync_harness.Watch.Kinds.{IsUpload, IsDropped, classify_exact}
use gd_sync_harness.Watch.Window.{Seen, note_seen, handle_event}

module _ (p rel : String) (flags now : ℕ) (db : Db) (window : List Seen) (r : Runtime)
    (s : ProfileSyncState) (runtime_row : db.runtime p ≡ some r)
    (state_row : db.sync_state p ≡ some s) where
  -- The event is promoted to a full reconciliation of a generation of its own.
  abbrev pub IsPromoted : Db → Type 0
  IsPromoted after =
      (s' : ProfileSyncState) × (after.sync_state p ≡ some s')
      × (suc r.source_generation ≤ s'.desired_generation)
      × (now + debounce_ms ≤ get_or 0 s'.reconcile_not_before_at)
      × (count_pending p after ≡ 0)

  -- The three ends of an event, of which each excludes the others.
  abbrev pub IsHandled : Db × List Seen → Type 0
  IsHandled after =
      (IsDropped flags × (after ≡ (db, window)))
      ⊎ (¬ IsDropped flags
          × IsUpload flags
          × (after ≡ ((record_event p rel modify false "" now db).1, note_seen rel now window)))
      ⊎ (¬ IsDropped flags
          × ¬ IsUpload flags
          × IsPromoted after.0
          × (after.1 ≡ note_seen rel now window))

  accepted :
      (kind : EventKind)
      → (record_event p rel kind (is_destructive kind) "" now db).0 ≡ ok (suc r.source_generation)
  unfolding record_event
  accepted kind = rw (record_event, runtime_row, state_row) refl

  stored :
      (kind : EventKind)
      → classify flags ≡ some kind
      → handle_event p (some rel) flags now (db, window)
        ≡ ((record_event p rel kind (is_destructive kind) "" now db).1, note_seen rel now window)
  unfolding handle_event
  stored kind e = rw (handle_event, e, accepted kind) refl

  dropped : classify flags ≡ none → handle_event p (some rel) flags now (db, window) ≡ (db, window)
  unfolding handle_event
  dropped e = rw (handle_event, e) refl

  promoted :
      (kind : EventKind)
      → is_destructive kind ≡ true
      → IsPromoted (record_event p rel kind (is_destructive kind) "" now db).1
  promoted kind full =
      let done =
        full_event_promotes p rel kind (is_destructive kind) "" now db r s runtime_row state_row
          (ground arith) in
      (done.0, done.1, done.3, done.5, done.6)

  not-IsDropped : (kind : EventKind) → classify flags ≡ some kind → ¬ IsDropped flags
  not-IsDropped kind e d =
      let gone = (classify_exact flags).1.1 d in absurd (some_not_none (sym e ∙ gone))
    where
      some_not_none : some kind ≢ none
      some_not_none k = ground arith

  not_uploaded : (kind : EventKind) → kind ≢ modify → classify flags ≡ some kind → ¬ IsUpload flags
  not_uploaded kind other_kind e u =
      let same = (classify_exact flags).0.1 u in other_kind (some_injective (sym e ∙ same))

  away :
      (kind : EventKind)
      → is_destructive kind ≡ true
      → kind ≢ modify
      → classify flags ≡ some kind
      → IsHandled (handle_event p (some rel) flags now (db, window))
  away kind full unlike e =
      rw (stored kind e)
        (inr (inr (not-IsDropped kind e, not_uploaded kind unlike e, promoted kind full, refl)))

  -- What the watcher stores of an event on a path of a profile whose two rows exist. It is dropped,
  -- leaving the state and the window as they were, where it is a change inside a directory that moves
  -- no name, and only there; it is recorded as a modification, which may stay in the fast lane,
  -- where its flags are complete and are of the content of a file, and only there; and any other
  -- event is promoted: the
  -- desired generation covers the event's own, the debounce ends no earlier than ten seconds from
  -- now, and no event is queued. What is not dropped enters the window.
  pub handle_event_decides : IsHandled (handle_event p (some rel) flags now (db, window))
  handle_event_decides = elim (classify_exact flags).2 [
    | inl e ↦ inr (inl (not-IsDropped modify e, (classify_exact flags).0.0 e, stored modify e))
    | inr (inl e) ↦ inl ((classify_exact flags).1.0 e, dropped e)
    | inr (inr (inl e)) ↦ away rename refl (λ k. ground arith) e
    | inr (inr (inr e)) ↦ away other refl (λ k. ground arith) e
  ]
