-- ===== src/Examples/Activities.antt =====
-- An activity and its checkpoints.
use gd_sync_harness.Prelude.{ℕ, ◌≡◌, ◌||◌, true, false, List, [], ◌∷◌, refl}
use mathlib.Core.Option.{none, some}
use gd_sync_harness.Db.Table.{Table}
use gd_sync_harness.Db.Schema.{uploading, deleting}
use gd_sync_harness.Activity.{
  CheckpointTracker, of_run, LiveActivity, set_phase, ProgressSnapshot, ActivityView, no_counters,
  snapshot, new_activity, start_activity, observe_frame, fresh_tracker,
}
use gd_sync_harness.Activity.Speed.{
  Call, begin_activity, frame_of, phase_of, calls, IsHonest, shown-IsHonest,
}
use gd_sync_harness.Activity.Stamps.{upload_start_kept}
use gd_sync_harness.Activity.Checkpoints.{
  Trigger, frame_at, phase_at, consumed_flags, any_measurable, checkpoint_exact, trigger,
}

abbrev bytes : ℕ → ProgressSnapshot
bytes n = record no_counters { bytes_completed = n }

-- Two frames of a transfer that began before its first phase.
abbrev uploads : List Call
uploads =
    begin_activity "p" "full_reconcile" (some "r1")
    ∷ frame_of "p" (bytes 100) true 1000 1000 1001
    ∷ frame_of "p" (bytes 300) false 2000 2000 2001
    ∷ []

abbrev view : ActivityView
view = record {
  activity = record (new_activity "full_reconcile" (some "r1")) {
    phase = some (of_run uploading);
    upload_started_at = some 1001;
    counters = bytes 300;
    speed = some (record { amount = 200; elapsed_ns = 1000 });
    files_rate = some (record { amount = 0; elapsed_ns = 1000 });
    estimator = record { last_bytes = 300; last_at = 2000; has_sample = true };
    file_rate = record { last_files = 0; last_at = 2000; has_sample = true };
    last_progress = some 1000;
  };
  possible_stall = true;
}

uploads_shown : snapshot 1900000 "p" (calls uploads (λ j. none)) ≡ some view
unfolding snapshot start_activity observe_frame
uploads_shown = refl

shown-IsHonest_example : IsHonest view.activity
shown-IsHonest_example = shown-IsHonest uploads 1900000 "p" view uploads_shown

-- The second frame comes too early for a checkpoint of its own; the phase writes it.
abbrev triggers : List Trigger
triggers = frame_at false 1000 ∷ frame_at true 2000 ∷ phase_at 3000 ∷ []

triggers_written : (consumed_flags triggers fresh_tracker).0 ≡ false ∷ true ∷ []
unfolding consumed_flags
triggers_written = refl

abbrev quiet_frame : List Trigger
quiet_frame = frame_at true 2000 ∷ []

abbrev just_written : CheckpointTracker
just_written = record { last_checkpoint = some 1000; has_measurable = false }

checkpoint_exact_example :
    (true ≡ (false || (any_measurable quiet_frame || just_written.has_measurable)))
    × ((trigger (phase_at 3000) (consumed_flags quiet_frame just_written).1).1.has_measurable
        ≡ false)
unfolding consumed_flags trigger
checkpoint_exact_example = checkpoint_exact quiet_frame (phase_at 3000) just_written true refl refl

-- An activity enters the uploading phase, and then deletes.
abbrev waiting : Table LiveActivity
waiting = start_activity "p" "full_reconcile" (some "r1") (λ j. none)

abbrev deletes : List Call
deletes = phase_of "p" (of_run deleting) 9000 ∷ phase_of "p" (of_run uploading) 9500 ∷ []

abbrev later_view : ActivityView
later_view = record {
  activity = record (new_activity "full_reconcile" (some "r1")) {
    phase = some (of_run uploading);
    upload_started_at = some 5000;
  };
  possible_stall = false;
}

later_shown :
    snapshot 9600 "p" (calls deletes (set_phase "p" (of_run uploading) 5000 waiting))
    ≡ some later_view
unfolding snapshot start_activity set_phase
later_shown = refl

waiting_row : waiting "p" ≡ some (new_activity "full_reconcile" (some "r1"))
unfolding start_activity
waiting_row = refl

upload_start_kept_example : later_view.activity.upload_started_at ≡ some 5000
upload_start_kept_example =
    upload_start_kept "p" 5000 9600 (new_activity "full_reconcile" (some "r1")) waiting deletes
      later_view waiting_row refl (tt, (tt, tt)) later_shown
