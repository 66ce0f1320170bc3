-- ===== src/Events/Lanes.antt =====
-- The two lanes of recordEvent: the fast queue, and the intent of a full reconciliation.
use gd_sync_harness.Prelude.{
  ℕ, suc, ◌≤◌, ◌+◌, String, ◌≡◌, ◌≢◌, Bool, true, false, not, ◌||◌, some, List, [], ◌∷◌, arith,
  eq_refl, refl, get_or,
}
use gd_sync_harness.Db.Table.{select_where, delete_where}
use gd_sync_harness.Db.Schema.{
  Db, ProfileSyncState, Runtime, PendingEvent, EventKind, ok, syncing, error,
}
use gd_sync_harness.Sync.{has_debt, raise_desired, open_window, debounce_ms}
use gd_sync_harness.Events.{record_event, is_safe_fast_kind, needs_bootstrap, is_of, count_pending}

-- The lane that recordEvent takes.
abbrev pub goes_full : EventKind → Bool → ProfileSyncState → Bool
goes_full kind is_full s = is_full || not (is_safe_fast_kind kind) || needs_bootstrap s

pub delete_where-none :
    (p : String) (es : List PendingEvent) → select_where (is_of p) (delete_where (is_of p) es) ≡ []
unfolding select_where delete_where
delete_where-none p [] = refl
delete_where-none p (e ∷ es) = ground (arith, delete_where-none p es)

module _ (p path : String) (kind : EventKind) (is_full : Bool) (policy_hash : String) (now : ℕ)
    (db : Db) (r : Runtime) (s : ProfileSyncState) (runtime_row : db.runtime p ≡ some r)
    (state_row : db.sync_state p ≡ some s) where
  abbrev recorded : Db
  recorded = (record_event p path kind is_full policy_hash now db).1

  pub record_event-full :
      goes_full kind is_full s ≡ true
      → (recorded.sync_state p ≡ some (open_window now (raise_desired (suc r.source_generation) s)))
        × (recorded.pending_events ≡ delete_where (is_of p) db.pending_events)
  unfolding record_event
  record_event-full b = ground (arith, eq_refl p)

  -- A destructive or uncertain event, and any event of a profile that was never asked to
  -- synchronise, is promoted: the desired generation covers the event's own, the debounce window
  -- ends no earlier than ten seconds from now, and the detailed queue of the profile is empty.
  pub full_event_promotes :
      goes_full kind is_full s ≡ true
      → (s' : ProfileSyncState) × (recorded.sync_state p ≡ some s')
        × ((record_event p path kind is_full policy_hash now db).0 ≡ ok (suc r.source_generation))
        × (suc r.source_generation ≤ s'.desired_generation)
        × (s.desired_generation ≤ s'.desired_generation)
        × (now + debounce_ms ≤ get_or 0 s'.reconcile_not_before_at)
        × (count_pending p recorded ≡ 0)
  full_event_promotes b =
      let (row, queue) = record_event-full b in
      (
        open_window now (raise_desired (suc r.source_generation) s),
        row,
        unfold record_event in ground arith,
        unfold open_window raise_desired in omega arith,
        unfold open_window raise_desired in omega arith,
        unfold open_window raise_desired in ground arith,
        unfold count_pending in rw (queue, delete_where-none p db.pending_events) refl,
      )

  -- In the fast lane nothing of the reconciliation state changes: no debt is made, no gate moves,
  -- no attempt is touched. Only the source generation goes up by one.
  pub fast_event_frame :
      goes_full kind is_full s ≡ false
      → (recorded.sync_state p ≡ some s)
        × (recorded.runtime p ≡ some (record r { source_generation = suc r.source_generation }))
        × (recorded.sync_runs ≡ db.sync_runs)
        × ((record_event p path kind is_full policy_hash now db).0 ≡ ok (suc r.source_generation))
  unfolding record_event
  fast_event_frame b =
      (ground (arith, eq_refl p), ground (arith, eq_refl p), ground arith, ground arith)

  -- A destructive event is lost as work when manual or scheduled requests have taken the generations
  -- ahead of the source: if the last success already covers the generation that the event is given,
  -- the profile has no debt after the event, the event is not queued either, and yet the profile is
  -- not reported ready (unless it was in error before).
  pub destructive_event_lost :
      (last : ℕ)
      → is_safe_fast_kind kind ≡ false
      → s.last_success_generation ≡ some last
      → s.desired_generation ≤ last
      → suc r.source_generation ≤ last
      → (s' : ProfileSyncState) × (recorded.sync_state p ≡ some s')
        × (has_debt s' ≡ false)
        × (count_pending p recorded ≡ 0)
        × (s.state ≢ error → s'.state ≡ syncing)
  destructive_event_lost last unsafe success settled behind =
      let promoted = full_event_promotes (ground arith) in
      let (row, queue) = record_event-full (ground arith) in
      (
        open_window now (raise_desired (suc r.source_generation) s),
        row,
        unfold open_window raise_desired in ground arith,
        promoted.6,
        unfold open_window raise_desired in λ h. ground arith,
      )
