-- ===== src/Examples/Queue.antt =====
-- Events of a profile, in both lanes.
use mathlib.Core.List.{Memᴰ}
use gd_sync_harness.Prelude.{◌≡◌, ◌≢◌, pos, true, false, some, [], ◌∷◌, refl, arith}
use gd_sync_harness.Db.Schema.{
  queued, Db, ProfileSyncState, Runtime, modify, delete, error, syncing,
}
use gd_sync_harness.Db.Table.{exists_where}
use gd_sync_harness.Lifecycle.{create_profile}
use gd_sync_harness.Sync.Intent.{submit_manual_reconcile}
use gd_sync_harness.Sync.Claim.{claim_run, refusal, take, consume}
use gd_sync_harness.Sync.{new_row, has_debt}
use gd_sync_harness.Sync.Commit.{commit_run_success}
use gd_sync_harness.Events.{record_event, count_pending}
use gd_sync_harness.Events.Lanes.{destructive_event_lost}
use gd_sync_harness.Machine.{Reach, start, next, apply, create, claim, event, manual, empty}
use gd_sync_harness.Machine.Queue.{QueueOk}
use gd_sync_harness.Machine.Queueing.{Reach-QueueOk}
use gd_sync_harness.Machine.Losing.{event_lost_in_flight}
use gd_sync_harness.Examples.Data.{db_of, settled, source_row, note_event, manual_ten}

abbrev quiet : Db
quiet = db_of settled (note_event ∷ [])

destructive_event_lost_example :
    (s' : ProfileSyncState) × ((record_event "p" "a.md" delete false "" 9 quiet).1.sync_state "p"
      ≡ some s')
    × (has_debt s' ≡ false)
    × (count_pending "p" (record_event "p" "a.md" delete false "" 9 quiet).1 ≡ 0)
    × (settled.state ≢ error → s'.state ≡ syncing)
destructive_event_lost_example =
    destructive_event_lost "p" "a.md" delete false "" 9 quiet source_row settled refl refl 7 refl
      refl (omega arith) (omega arith)

-- A profile that is created, claimed, and reconciled once; then a file is modified.
abbrev seen_db : Db
seen_db =
    apply "p" (event "note.md" modify false "" 7)
      (apply "p" (claim "r1" 6) (apply "p" (create (pos 10) true "h0" 5) empty))

seen : Reach seen_db
seen =
    next "p" (event "note.md" modify false "" 7)
      (next "p" (claim "r1" 6) (next "p" (create (pos 10) true "h0" 5) start tt) tt) tt

Reach-QueueOk_example : QueueOk seen_db
Reach-QueueOk_example = Reach-QueueOk seen

-- Two manual requests take the desired generation ahead of the source.
abbrev ahead_db : Db
ahead_db = apply "p" (claim "r1" 6) (
    apply "p" (manual manual_ten)
      (apply "p" (manual manual_ten) (apply "p" (create (pos 10) true "h0" 5) empty)))

ahead : Reach ahead_db
ahead =
    next "p" (claim "r1" 6)
      (next "p" (manual manual_ten)
        (next "p" (manual manual_ten) (next "p" (create (pos 10) true "h0" 5) start tt) tt) tt)
      tt

abbrev ahead_runtime : Runtime
ahead_runtime = record source_row { source_generation = 1; reconcile_requested = true }

abbrev ahead_row : ProfileSyncState
ahead_row = record (new_row 3) {
  current_run_id = some "r1";
  phase = some queued;
  last_progress_at = some 6;
  last_heartbeat_at = some 6;
}

ahead_runtime_lem : ahead_db.runtime "p" ≡ some ahead_runtime
unfolding apply create_profile submit_manual_reconcile claim_run refusal exists_where
ahead_runtime_lem = refl

ahead_row_lem : ahead_db.sync_state "p" ≡ some ahead_row
unfolding apply create_profile submit_manual_reconcile claim_run refusal exists_where take consume
ahead_row_lem = refl

event_lost_in_flight_example :
    (s' : ProfileSyncState) × ((commit_run_success "p" "r1" 3 9
          (record_event "p" "note.md" modify false "" 7 ahead_db).1).sync_state
        "p"
      ≡ some s')
    × (has_debt s' ≡ false)
    × (count_pending "p" (
          commit_run_success "p" "r1" 3 9 (record_event "p" "note.md" modify false "" 7 ahead_db).1)
        ≡ 0)
event_lost_in_flight_example =
    event_lost_in_flight "p" "note.md" modify false "" 7 ahead_db ahead_runtime ahead_row "r1" 3 9
      ahead ahead_runtime_lem ahead_row_lem refl (omega arith) (omega arith)
