-- ===== src/Activity.antt =====
-- What a worker knows of a running activity: internal/cli/activity.go, by profile, and
-- internal/cli/checkpoint.go. Times are in milliseconds, those of a rate in nanoseconds. The counters
-- of rclone are not negative; its own average speed, which activities do not read, is left out.
pub mod Speed
pub mod Stamps
pub mod Checkpoints
use gd_sync_harness.Prelude.{
  ℕ, ◌+◌, ◌*◌, ◌-◌, String, Bool, true, false, not, ◌&&◌, ◌||◌, leb, str_eq, if◌then◌else◌, is_some,
  get_or,
}
use mathlib.Core.Option.{Option, none, some}
use gd_sync_harness.Db.Table.{Table}
use gd_sync_harness.Db.Schema.{Phase, uploading, downloading, deleting, reconciling}
use gd_sync_harness.Live.Throughput.{
  Rate, ThroughputEstimator, FileRateEstimator, observe, observe_files, reset,
}

-- ProgressSnapshot of internal/state/syncstate.go
pub record ProgressSnapshot : Type 0 where
  pub files_completed : ℕ
  pub bytes_completed : ℕ
  pub bytes_total : ℕ
  pub checks_completed : ℕ
  pub checks_total : ℕ
  pub items_listed : ℕ
  pub errors_count : ℕ
  pub current_item : Option String
  pub current_item_bytes : ℕ
  pub current_item_size : ℕ
  pub active_transfers : ℕ

-- The phases of internal/derived/publisher.go
pub data DerivedPhase : Type 0 where
  sync_phase check_phase commit_phase purge_phase : DerivedPhase

-- The phases that a worker sets: those of a run, and those of a publication.
pub data ActivityPhase : Type 0 where
  of_run : Phase → ActivityPhase
  of_derived : DerivedPhase → ActivityPhase

-- liveActivity. The phase is none before the first one; a rate is none where it is not known.
pub record LiveActivity : Type 0 where
  pub kind : String
  pub run_id : Option String
  pub phase : Option ActivityPhase
  pub estimator : ThroughputEstimator
  pub file_rate : FileRateEstimator
  pub counters : ProgressSnapshot
  pub speed : Option Rate
  pub files_rate : Option Rate
  pub upload_started_at : Option ℕ
  pub last_progress : Option ℕ

abbrev pub no_counters : ProgressSnapshot
no_counters = record {
  files_completed = 0;
  bytes_completed = 0;
  bytes_total = 0;
  checks_completed = 0;
  checks_total = 0;
  items_listed = 0;
  errors_count = 0;
  current_item = none;
  current_item_bytes = 0;
  current_item_size = 0;
  active_transfers = 0;
}

abbrev pub new_activity : String → Option String → LiveActivity
new_activity kind run_id = record {
  kind = kind;
  run_id = run_id;
  phase = none;
  estimator = record { last_bytes = 0; last_at = 0; has_sample = false };
  file_rate = record { last_files = 0; last_at = 0; has_sample = false };
  counters = no_counters;
  speed = none;
  files_rate = none;
  upload_started_at = none;
  last_progress = none;
}

-- start
unfoldable pub start_activity :
    String → String → Option String → Table LiveActivity → Table LiveActivity
start_activity p kind run_id live =
    λ j. if str_eq p j then some (new_activity kind run_id) else live j

abbrev is_transfer : Phase → Bool
is_transfer uploading = true
is_transfer downloading = true
is_transfer deleting = true
is_transfer reconciling = true
is_transfer _ = false

-- transferPhase
abbrev pub transfer_phase : ActivityPhase → Bool
transfer_phase (of_run phase) = is_transfer phase
transfer_phase (of_derived phase) = false

-- recordUploadStart
abbrev pub record_upload_start : ℕ → Option ℕ → Option ℕ
record_upload_start now started = some (get_or now started)

abbrev is_upload : ActivityPhase → Bool
is_upload (of_run uploading) = true
is_upload _ = false

abbrev pub started_in : ActivityPhase → ℕ → Option ℕ → Option ℕ
started_in phase now started = if is_upload phase then record_upload_start now started else started

unfoldable pub enter : ActivityPhase → ℕ → LiveActivity → LiveActivity
enter phase now a =
    if transfer_phase phase
    then record a {
      phase = some phase;
      upload_started_at = started_in phase now a.upload_started_at;
    }
    else record a { phase = some phase; speed = none; files_rate = none }

abbrev pub on_row : String → (LiveActivity → LiveActivity) → Table LiveActivity → Table LiveActivity
on_row p f live =
    λ j. if str_eq p j then (elim (live j) [ none ↦ none | some a ↦ some (f a) ]) else live j

-- setPhase
unfoldable pub set_phase : String → ActivityPhase → ℕ → Table LiveActivity → Table LiveActivity
unfolding enter
set_phase p phase now live = on_row p (enter phase now) live

-- The counters of a frame: a frame that names no item keeps the item before it.
abbrev pub counted : ProgressSnapshot → ProgressSnapshot → ProgressSnapshot
counted old s = record s {
  current_item = elim s.current_item [ none ↦ old.current_item | some i ↦ some i ];
}

-- A frame before any phase begins the upload.
abbrev pub begun : Option ActivityPhase → ℕ → LiveActivity → LiveActivity
begun none clock a = record a {
  phase = some (of_run uploading);
  upload_started_at = record_upload_start clock a.upload_started_at;
}
begun (some phase) clock a = a

abbrev pub in_transfer : Option ActivityPhase → Bool
in_transfer none = false
in_transfer (some phase) = transfer_phase phase

abbrev pub rated : Bool → ProgressSnapshot → ℕ → LiveActivity → LiveActivity
rated false s now_ns a = a
rated true s now_ns a = record a {
  speed = (observe s.bytes_completed now_ns a.estimator).0;
  estimator = (observe s.bytes_completed now_ns a.estimator).1;
  files_rate = (observe_files s.files_completed now_ns a.file_rate).0;
  file_rate = (observe_files s.files_completed now_ns a.file_rate).1;
}

unfoldable pub take_frame : ProgressSnapshot → Bool → ℕ → ℕ → ℕ → LiveActivity → LiveActivity
unfolding observe observe_files
take_frame s measurable now now_ns clock a =
    let b = begun a.phase clock (record a { counters = counted a.counters s }) in
    let c = rated (in_transfer b.phase) s now_ns b in
    record c { last_progress = if measurable then some now else c.last_progress }

-- observe, with the time of the frame in both units and the clock of the tracker
unfoldable pub observe_frame :
    String → ProgressSnapshot → Bool → ℕ → ℕ → ℕ → Table LiveActivity → Table LiveActivity
unfolding take_frame
observe_frame p s measurable now now_ns clock live =
    on_row p (take_frame s measurable now now_ns clock) live

-- finish
unfoldable pub finish_activity : String → Table LiveActivity → Table LiveActivity
finish_activity p live = λ j. if str_eq p j then none else live j

abbrev pub possible_stall_after : ℕ
possible_stall_after = 30 * 60 * 1000

-- ActivityS, as snapshot fills it
pub record ActivityView : Type 0 where
  pub activity : LiveActivity
  pub possible_stall : Bool

-- snapshot
unfoldable pub snapshot : ℕ → String → Table LiveActivity → Option ActivityView
snapshot now p live = elim (live p) [
  | none ↦ none
  | some a ↦ some (record {
    activity = a;
    possible_stall = (elim a.last_progress [
      | none ↦ false
      | some t ↦ leb (t + possible_stall_after) now
    ]);
  })
]

-- checkpointTracker
pub record CheckpointTracker : Type 0 where
  pub last_checkpoint : Option ℕ
  pub has_measurable : Bool

abbrev pub checkpoint_interval : ℕ
checkpoint_interval = 60 * 60 * 1000

-- newCheckpointTracker and reset
abbrev pub fresh_tracker : CheckpointTracker
fresh_tracker = record { last_checkpoint = none; has_measurable = false }

-- frame
unfoldable pub note_frame : Bool → CheckpointTracker → CheckpointTracker
note_frame measurable c = record c { has_measurable = measurable || c.has_measurable }

-- due
abbrev pub checkpoint_due : ℕ → Option ℕ → Bool
checkpoint_due now none = true
checkpoint_due now (some last) = leb (last + checkpoint_interval) now

-- consume: the flag of the checkpoint to write, if one is written
unfoldable pub consume_checkpoint : Bool → ℕ → CheckpointTracker → Option Bool × CheckpointTracker
consume_checkpoint force now c =
    if not force && not (checkpoint_due now c.last_checkpoint)
    then (none, c)
    else (some c.has_measurable, record { last_checkpoint = some now; has_measurable = false })
