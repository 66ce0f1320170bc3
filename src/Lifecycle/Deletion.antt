-- ===== src/Lifecycle/Deletion.antt =====
-- The deletion of a profile, from the request to the tombstone.
use gd_sync_harness.Prelude.{
  ℕ, String, ◌≡◌, ◌≢◌, refl, Bool, true, false, none, some, is_some, arith, eq_refl,
}
use gd_sync_harness.Db.Table.{delete_where}
use gd_sync_harness.Db.Schema.{Db, Profile, ProfileSyncState, SyncRun}
use gd_sync_harness.Sync.Claim.{claimed, claim_run, refusal}
use gd_sync_harness.Events.{is_of, count_pending}
use gd_sync_harness.Events.Lanes.{delete_where-none}
use gd_sync_harness.Lifecycle.{set_profile_enabled, request_profile_deletion, finalize_deletion}

-- Once the deletion of a profile is requested no claim starts a run for it, whatever its debt, the
-- id and the time, and even if the profile is enabled again.
deletion_blocks_claim :
    (p id : String) (requested now : ℕ) (again : Bool) (db : Db) (pr : Profile) (r : SyncRun)
    → db.profiles p ≡ some pr
    → (claim_run p id now
        (set_profile_enabled p again (request_profile_deletion p requested db).1).1).0
      ≢ claimed r
unfolding claim_run refusal request_profile_deletion set_profile_enabled
deletion_blocks_claim p id requested now again db pr r e h = ground (arith, eq_refl p)

-- The worker's turn on a profile whose deletion was requested waits for the run that is active, and
-- leaves everything as it is until then; without one it empties the queue, and the profile is
-- tombstoned, disabled and no longer asked to be deleted.
finalize_exact :
    (p : String) (now : ℕ) (db : Db) (pr : Profile) (s : ProfileSyncState)
    → db.profiles p ≡ some pr
    → db.sync_state p ≡ some s
    → let db1 = (finalize_deletion p now db).1 in
      (is_some s.current_run_id ≡ true → db1 ≡ db)
      × (s.current_run_id ≡ none
          → (count_pending p db1 ≡ 0)
            × ((pr1 : Profile) × (db1.profiles p ≡ some pr1)
                × (pr1.tombstoned ≡ true)
                × (pr1.enabled ≡ false)
                × (pr1.deletion_requested_at ≡ none)
                × (pr1.deleted_at ≡ some now)))
finalize_exact p now db pr s e row = (λ busy. waits busy, λ idle. (emptied idle, buried idle))
  where
    waits : is_some s.current_run_id ≡ true → (finalize_deletion p now db).1 ≡ db
    waits busy = unfold finalize_deletion in ground (arith, row)

    queue :
        s.current_run_id ≡ none
        → (finalize_deletion p now db).1.pending_events ≡ delete_where (is_of p) db.pending_events
    queue idle = unfold finalize_deletion in ground (arith, row, e)

    emptied : s.current_run_id ≡ none → count_pending p (finalize_deletion p now db).1 ≡ 0
    emptied idle =
        unfold count_pending in rw (queue idle, delete_where-none p db.pending_events) refl

    buried :
        s.current_run_id ≡ none
        → (pr1 : Profile) × ((finalize_deletion p now db).1.profiles p ≡ some pr1)
          × (pr1.tombstoned ≡ true)
          × (pr1.enabled ≡ false)
          × (pr1.deletion_requested_at ≡ none)
          × (pr1.deleted_at ≡ some now)
    buried idle = (
      record {
        enabled = false;
        tombstoned = true;
        deletion_requested_at = none;
        deleted_at = some now;
        max_delete = pr.max_delete;
      },
      unfold finalize_deletion in ground (arith, row, e, eq_refl p),
      refl,
      refl,
      refl,
      refl,
    )
