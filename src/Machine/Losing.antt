-- ===== src/Machine/Losing.antt =====
-- A creation or modification that is seen while a run is active.
use gd_sync_harness.Prelude.{
  ℕ, suc, ◌≤◌, String, ◌≡◌, refl, Bool, false, inl, inr, some, All-imp, arith, eq_refl, eq_iff,
  str_eq, Bool-cases,
}
use gd_sync_harness.Db.Table.{Table, delete_where}
use gd_sync_harness.Db.Table.Laws.{All-delete_where, select_where-nil}
use gd_sync_harness.Db.Schema.{Db, Runtime, ProfileSyncState, PendingEvent, EventKind}
use gd_sync_harness.Sync.{has_debt}
use gd_sync_harness.Sync.Commit.{commit_run_success, settle, is_covered}
use gd_sync_harness.Events.{record_event, is_of, count_pending}
use gd_sync_harness.Events.Lanes.{goes_full, fast_event_frame}
use gd_sync_harness.Machine.{Reach}
use gd_sync_harness.Machine.Queue.{EventOk, QueueOk}
use gd_sync_harness.Machine.Queued.{event-QueueOk}
use gd_sync_harness.Machine.Queueing.{Reach-QueueOk}

-- An event of the profile is covered by any target that covers the source generation.
EventOk-covered :
    (p : String) (target : ℕ) (rt : Table Runtime) (r : Runtime) (e : PendingEvent)
    → rt p ≡ some r
    → r.source_generation ≤ target
    → EventOk rt e
    → is_covered p target e ≡ false
    → is_of p e ≡ false
EventOk-covered p target rt r e row le (safe, (r', row', le')) kept =
    elim (Bool-cases (str_eq e.profile_id p)) [
      | inr b ↦ b
      | inl b ↦ ground (arith, eq_iff e.profile_id p)
    ]

success_empties :
    (p id : String) (target now : ℕ) (db : Db) (r : Runtime)
    → QueueOk db
    → db.runtime p ≡ some r
    → r.source_generation ≤ target
    → count_pending p (commit_run_success p id target now db) ≡ 0
unfolding count_pending commit_run_success
success_empties p id target now db r w row le =
    rw
      (select_where-nil (is_of p) (delete_where (is_covered p target) db.pending_events) (
        All-imp _ _ _ (λ e h. EventOk-covered p target db.runtime r e row le h.0 h.1)
          (All-delete_where (EventOk db.runtime) (is_covered p target) db.pending_events w)))
      refl

-- A creation or modification that takes the fast lane while a run is active is lost when the target
-- of the run is ahead of the source, as it is after manual or scheduled requests: in a reachable
-- database the success of a run whose target covers the event's generation and the desired one
-- leaves the queue of the profile empty and the profile without debt.
pub event_lost_in_flight :
    (p path : String) (kind : EventKind) (is_full : Bool) (policy_hash : String) (seen : ℕ)
    (db : Db) (r : Runtime) (s : ProfileSyncState) (id : String) (target now : ℕ)
    → Reach db
    → db.runtime p ≡ some r
    → db.sync_state p ≡ some s
    → goes_full kind is_full s ≡ false
    → suc r.source_generation ≤ target
    → s.desired_generation ≤ target
    → let db' =
        commit_run_success p id target now
          (record_event p path kind is_full policy_hash seen db).1 in
      (s' : ProfileSyncState) × (db'.sync_state p ≡ some s')
      × (has_debt s' ≡ false)
      × (count_pending p db' ≡ 0)
event_lost_in_flight p path kind is_full policy_hash seen db r s id target now reach row row' fast
      le le' =
    (
      settle target now s,
      state_row,
      debt,
      success_empties p id target now after
          (record r { source_generation = suc r.source_generation })
          (event-QueueOk p path kind is_full policy_hash seen db (Reach-QueueOk reach)) runtime_row
          le,
    )
  where
    after : Db
    after = (record_event p path kind is_full policy_hash seen db).1

    fast_row :
        (after.sync_state p ≡ some s)
        × (after.runtime p ≡ some (record r { source_generation = suc r.source_generation }))
    fast_row =
        let h = fast_event_frame p path kind is_full policy_hash seen db r s row row' fast in
        (h.0, h.1)

    state_row : (commit_run_success p id target now after).sync_state p ≡ some (settle target now s)
    state_row = unfold commit_run_success in ground (arith, eq_refl p, fast_row.0)

    debt : has_debt (settle target now s) ≡ false
    debt = unfold settle in ground arith

    runtime_row : after.runtime p ≡ some (record r { source_generation = suc r.source_generation })
    runtime_row = fast_row.1
