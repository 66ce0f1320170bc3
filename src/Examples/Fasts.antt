-- ===== src/Examples/Fasts.antt =====
-- A fast batch of two events, one of whose files is gone, while a newer event comes in.
use mathlib.Core.List.{Memᴰ}
use gd_sync_harness.Prelude.{
  ◌≡◌, ◌↔◌, pos, false, none, some, not, List, [], ◌∷◌, ◌++◌, All, refl, str_eq,
}
use gd_sync_harness.Db.Schema.{PendingEvent}
use gd_sync_harness.Db.Ledger.{Store}
use gd_sync_harness.Db.Table.{select_where}
use gd_sync_harness.Events.{is_version, has_destructive_pending}
use gd_sync_harness.Worker.Fast.{
  FastInputs, finish_steps, uploaded, failed, earliest, latest, is_due, sort_events, finish_fast,
  upload_fast, due_batch, fast_batch,
}
use gd_sync_harness.Worker.Fast.Cleared.{meanwhile, Handled, fast_batch_cleared}
use gd_sync_harness.Worker.Fast.Ledgered.{IsBarred, fast_batch-IsBarred}
use gd_sync_harness.Examples.Data.{settled, note_event, db_of}

abbrev gone_event : PendingEvent
gone_event = record note_event { path = "gone.md"; first_seen = 5; last_seen = 6 }

abbrev newer : PendingEvent
newer = record note_event { source_generation = 4; last_seen = 40002 }

abbrev adding : FastInputs
adding = record {
  now = 40000;
  is_there = λ path. not (str_eq path "gone.md");
  stat_after = λ path. some (record { size = 3; mod_time = pos 9 });
  excluded = λ path. false;
  upload_error = none;
  meanwhile = λ db. record db { pending_events = db.pending_events ++ newer ∷ [] };
  done_at = 40005;
}

abbrev losing : FastInputs
losing = record adding { upload_error = some "network" }

abbrev queued : List PendingEvent
queued = note_event ∷ gone_event ∷ []

abbrev waiting_store : Store
waiting_store = record {
  db = db_of settled queued;
  manifest = [];
  prune_requests = [];
  prune_targets = [];
}

adding_uploads : (fast_batch "p" adding queued waiting_store).1 ≡ uploaded ("note.md" ∷ [])
unfolding fast_batch due_batch has_destructive_pending select_where is_due earliest latest
    sort_events upload_fast finish_fast
adding_uploads = refl

losing_fails : (fast_batch "p" losing queued waiting_store).1 ≡ failed "network"
unfolding fast_batch due_batch has_destructive_pending select_where is_due earliest latest
    sort_events upload_fast finish_fast
losing_fails = refl

fast_batch_cleared_example :
    All (Handled adding ("note.md" ∷ [])) queued
    × ((e : PendingEvent)
        → Memᴰ e (fast_batch "p" adding queued waiting_store).0.db.pending_events ↔ (
            Memᴰ e (adding.meanwhile waiting_store.db).pending_events
            × All (λ v. is_version "p" v e ≡ false) queued))
fast_batch_cleared_example =
    fast_batch_cleared "p" adding queued waiting_store ("note.md" ∷ []) adding_uploads

fast_batch-IsBarred_example :
    (eligible : List PendingEvent) × (discardable : List PendingEvent) × (sort_events adding queued
      ≡ some (eligible, discardable))
    × ((before : List Store) × (finish_steps "p" adding eligible discardable
            (meanwhile adding waiting_store)
          ≡ before ++ ((fast_batch "p" adding queued waiting_store).0 ∷ [])))
    × All
        (IsBarred "p" adding ("note.md" ∷ []) (adding.meanwhile waiting_store.db).pending_events)
        (finish_steps "p" adding eligible discardable (meanwhile adding waiting_store))
fast_batch-IsBarred_example =
    fast_batch-IsBarred "p" adding queued waiting_store ("note.md" ∷ []) adding_uploads
