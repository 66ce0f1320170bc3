-- ===== src/Watch/Firing.antt =====
-- What a window that fires leaves of the queue and of the debt.
use gd_sync_harness.Prelude.{
  ℕ, ◌+◌, ◌*◌, ◌≤◌, ◌≡◌, ◌⊎◌, ◌||◌, String, Bool, true, false, some, List, length, arith,
  Bool-cases, inl, inr, get_or, eq_refl, refl, str_eq,
}
use gd_sync_harness.Db.Table.{select_where, count_where}
use gd_sync_harness.Db.Schema.{ProfileSyncState, Runtime, PendingEvent}
use gd_sync_harness.Db.Ledger.{Store}
use gd_sync_harness.Sync.{at_least_one, raise_desired, open_window, debounce_ms}
use gd_sync_harness.Events.{
  collapse, is_of, count_pending, has_destructive_pending, promote_to_full_reconcile,
}
use gd_sync_harness.Events.Lanes.{delete_where-none}
use gd_sync_harness.Watch.{Fired, reconcile, fire_batch, too_many}

module _ (p : String) (window : List String) (now : ℕ) (st : Store) (r : Runtime)
    (s : ProfileSyncState) (runtime_row : st.db.runtime p ≡ some r)
    (state_row : st.db.sync_state p ≡ some s) where
  abbrev pending : List PendingEvent
  pending = select_where (is_of p) st.db.pending_events

  abbrev manifest : ℕ
  manifest = count_where (λ e. str_eq e.profile_id p) st.manifest

  abbrev heavy : Bool
  heavy = has_destructive_pending p st.db || too_many (length pending) manifest

  -- The queue of the profile was given up for a full reconciliation that covers it.
  abbrev pub Promoted : Store → Fired → Type 0
  Promoted after fired =
      (s' : ProfileSyncState) × (after.db.sync_state p ≡ some s')
      × (r.source_generation ≤ s'.desired_generation)
      × (1 ≤ s'.desired_generation)
      × (s.desired_generation ≤ s'.desired_generation)
      × (now + debounce_ms ≤ get_or 0 s'.reconcile_not_before_at)
      × (count_pending p after.db ≡ 0)
      × (fired ≡ reconcile)

  -- Everything is as it was, and what is there is small enough for the fast lane.
  abbrev pub Untouched : Store → Type 0
  Untouched after =
      (after ≡ st)
      × (has_destructive_pending p st.db ≡ false)
      × (length pending ≤ 500)
      × ((manifest ≡ 0) ⊎ (length pending * 100 ≤ manifest * 5))

  abbrev promoted : Store
  promoted = record st { db = promote_to_full_reconcile p r.source_generation now st.db }

  abbrev generation : ℕ
  generation = at_least_one r.source_generation

  promoted-row : promoted.db.sync_state p ≡ some (open_window now (raise_desired generation s))
  unfolding promote_to_full_reconcile collapse
  promoted-row = ground (arith, eq_refl p)

  promoted-queue : count_pending p promoted.db ≡ 0
  unfolding promote_to_full_reconcile collapse count_pending
  promoted-queue = rw (delete_where-none p st.db.pending_events) refl

  promoted-Promoted : Promoted promoted reconcile
  promoted-Promoted = (
    open_window now (raise_desired generation s),
    promoted-row,
    unfold open_window raise_desired in ground arith,
    unfold open_window raise_desired in ground arith,
    unfold open_window raise_desired in omega arith,
    unfold open_window raise_desired in ground arith,
    promoted-queue,
    refl,
  )

  fire_batch-heavy : heavy ≡ true → fire_batch p window now st ≡ (promoted, reconcile)
  unfolding fire_batch
  fire_batch-heavy b = rw (b, runtime_row) refl

  fire_batch-light : heavy ≡ false → (fire_batch p window now st).0 ≡ st
  unfolding fire_batch
  fire_batch-light b = rw b refl

  light-Untouched : heavy ≡ false → Untouched (fire_batch p window now st).0
  light-Untouched b = (fire_batch-light b, ground (arith, b), ground (arith, b), ground (arith, b))

  -- A window that fires either gives up the queue of the profile for a full reconciliation or leaves
  -- everything as it is. In the first case the desired generation is not lowered, covers the source
  -- generation and is at least one, the debounce window ends no earlier than ten seconds from now,
  -- no event is queued, and the reconcile listener is asked. The second case is taken only where no
  -- destructive event is queued, the queue has at most five hundred events, and the ledger is empty
  -- or the queue is at most a twentieth of it. The profile's two rows exist.
  pub fire_batch_decides :
      Promoted (fire_batch p window now st).0 (fire_batch p window now st).1
      ⊎ Untouched (fire_batch p window now st).0
  fire_batch_decides = elim (Bool-cases heavy) [
    | inl b ↦ inl (rw (fire_batch-heavy b) promoted-Promoted)
    | inr b ↦ inr (light-Untouched b)
  ]
