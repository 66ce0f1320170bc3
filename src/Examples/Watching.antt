-- ===== src/Examples/Watching.antt =====
-- A watcher at work.
use mathlib.Core.List.{Memᴰ}
use gd_sync_harness.Prelude.{ℕ, ◌≡◌, ◌⊎◌, some, List, [], ◌∷◌, refl, arith}
use gd_sync_harness.Db.Schema.{Db, modify}
use gd_sync_harness.Db.Ledger.{Store}
use gd_sync_harness.Db.Table.{select_where, count_where}
use gd_sync_harness.Events.{has_destructive_pending}
use gd_sync_harness.Paths.{Text, codes_of}
use gd_sync_harness.Watch.{events_in, classify, fire_batch, batch}
use gd_sync_harness.Watch.Stream.{stream, events_in-stream}
use gd_sync_harness.Watch.Handling.{IsHandled, handle_event_decides}
use gd_sync_harness.Watch.Window.{Seen, handle_event, tick, note_seen, note_all, event_fires_by}
use gd_sync_harness.Watch.Firing.{Promoted, Untouched, fire_batch_decides}
use gd_sync_harness.Examples.Data.{db_of, settled, source_row, note_event, store_of}

abbrev two_events : List (Text × ℕ)
two_events = (codes_of "/n/a b.md", 516) ∷ (codes_of "/n/c", 0) ∷ []

events_in-stream_example : events_in (stream two_events) ≡ two_events
events_in-stream_example = events_in-stream two_events (
  (λ e. cc, omega arith, omega arith, omega arith),
  ((λ e. cc, omega arith, omega arith, omega arith), tt),
)

abbrev calm : Db
calm = db_of settled (note_event ∷ [])

handle_event_decides_example :
    IsHandled "p" "a.md" 8 9 calm [] source_row settled refl refl
      (handle_event "p" (some "a.md") 8 9 (calm, []))
handle_event_decides_example =
    handle_event_decides "p" "a.md" 8 9 calm [] source_row settled refl refl

updated_file : classify 516 ≡ some modify
unfolding classify
updated_file = refl

abbrev started : List Seen
started = note_seen "b.md" 4000 []

abbrev busy : List Seen
busy = note_all (("b.md", 20000) ∷ ("a.md", 33000) ∷ []) (note_seen "a.md" 5000 started)

event_fires_by_example : ((tick 3 30 35000 busy).0 ≡ []) × Memᴰ "a.md" (tick 3 30 35000 busy).1
unfolding note_seen
event_fires_by_example =
    event_fires_by 3 30 5000 35000 "a.md" (("b.md", 20000) ∷ ("a.md", 33000) ∷ []) started
      (omega arith, tt) (omega arith)

-- One small change is left to the fast lane.
abbrev light : Store
light = record (store_of [] []) { db = db_of settled (note_event ∷ []); manifest = [] }

fire_batch_decides_example :
    Promoted "p"
      ("note.md" ∷ [])
      9
      light
      source_row
      settled
      refl
      refl
      (fire_batch "p" ("note.md" ∷ []) 9 light).0
      (fire_batch "p" ("note.md" ∷ []) 9 light).1
    ⊎ Untouched "p"
        ("note.md" ∷ [])
        9
        light
        source_row
        settled
        refl
        refl
        (fire_batch "p" ("note.md" ∷ []) 9 light).0
fire_batch_decides_example =
    fire_batch_decides "p" ("note.md" ∷ []) 9 light source_row settled refl refl

light_told : (fire_batch "p" ("note.md" ∷ []) 9 light).1 ≡ batch ("note.md" ∷ [])
unfolding fire_batch has_destructive_pending select_where count_where
light_told = refl
