-- ===== src/Activity/Stamps.antt =====
-- The start of an upload, in the views of activities.
use gd_sync_harness.Prelude.{
  ℕ, String, Bool, true, false, ◌≡◌, refl, List, [], ◌∷◌, str_eq, Bool-cases, inl, inr, arith, none,
  some, All, eq_refl, ◌∙◌,
}
use mathlib.Core.Option.{Option, none, some}
use gd_sync_harness.Db.Table.{Table}
use gd_sync_harness.Db.Schema.{
  queued, scanning, planning, finalizing, uploading, downloading, deleting, reconciling,
}
use gd_sync_harness.Activity.{
  ActivityPhase, of_run, of_derived, ProgressSnapshot, LiveActivity, ActivityView, start_activity,
  set_phase, enter, observe_frame, take_frame, finish_activity, snapshot, in_transfer, on_row,
  begun, rated, counted,
}
use gd_sync_harness.Activity.Speed.{
  Call, begin_activity, phase_of, frame_of, end_activity, call, calls,
}

-- The activity of the profile began to upload at `t`.
abbrev Stamped : String → ℕ → Table LiveActivity → Type 0
Stamped p t live = (a : LiveActivity) × (live p ≡ some a) × (a.upload_started_at ≡ some t)

-- The call neither starts nor finishes an activity of the profile.
abbrev pub GoesOn : String → Call → Type 0
GoesOn p (begin_activity q kind run_id) = str_eq q p ≡ false
GoesOn p (end_activity q) = str_eq q p ≡ false
GoesOn p (phase_of q phase clock) = Unit
GoesOn p (frame_of q s measurable now now_ns clock) = Unit

on_row-Stamped :
    (p q : String) (t : ℕ) (f : LiveActivity → LiveActivity) (live : Table LiveActivity)
    → ((a : LiveActivity) → a.upload_started_at ≡ some t → (f a).upload_started_at ≡ some t)
    → Stamped p t live
    → Stamped p t (on_row q f live)
on_row-Stamped p q t f live keeps (a, row, stamp) = elim (Bool-cases (str_eq q p)) [
  | inl b ↦ (f a, ground (arith, row), keeps a stamp)
  | inr b ↦ (a, ground (arith, row), stamp)
]

enter-stamp :
    (phase : ActivityPhase) (now t : ℕ) (a : LiveActivity)
    → a.upload_started_at ≡ some t
    → (enter phase now a).upload_started_at ≡ some t
unfolding enter
enter-stamp (of_derived phase) now t a e = ground arith
enter-stamp (of_run queued) now t a e = ground arith
enter-stamp (of_run scanning) now t a e = ground arith
enter-stamp (of_run planning) now t a e = ground arith
enter-stamp (of_run uploading) now t a e = ground arith
enter-stamp (of_run downloading) now t a e = ground arith
enter-stamp (of_run deleting) now t a e = ground arith
enter-stamp (of_run reconciling) now t a e = ground arith
enter-stamp (of_run finalizing) now t a e = ground arith

rated-stamp :
    (b : Bool) (s : ProgressSnapshot) (now : ℕ) (a : LiveActivity)
    → (rated b s now a).upload_started_at ≡ a.upload_started_at
rated-stamp true s now a = refl
rated-stamp false s now a = refl

begun-stamp :
    (phase : Option ActivityPhase) (clock t : ℕ) (a : LiveActivity)
    → a.upload_started_at ≡ some t
    → (begun phase clock a).upload_started_at ≡ some t
begun-stamp none clock t a e = ground arith
begun-stamp (some phase) clock t a e = e

take_frame-stamp :
    (s : ProgressSnapshot) (measurable : Bool) (now now_ns clock t : ℕ) (a : LiveActivity)
    → a.upload_started_at ≡ some t
    → (take_frame s measurable now now_ns clock a).upload_started_at ≡ some t
unfolding take_frame
take_frame-stamp s measurable now now_ns clock t a e =
    let b = begun a.phase clock (record a { counters = counted a.counters s }) in
    rated-stamp (in_transfer b.phase) s now_ns b
    ∙ begun-stamp a.phase clock t (record a { counters = counted a.counters s }) e

call-Stamped :
    (p : String) (t : ℕ) (c : Call) (live : Table LiveActivity)
    → GoesOn p c
    → Stamped p t live
    → Stamped p t (call c live)
call-Stamped p t (begin_activity q kind run_id) live other (a, row, stamp) =
    (a, unfold start_activity in ground (arith, row), stamp)
call-Stamped p t (phase_of q phase clock) live other h =
    unfold set_phase in
    on_row-Stamped p q t (enter phase clock) live (λ a. enter-stamp phase clock t a) h
call-Stamped p t (frame_of q s measurable now now_ns clock) live other h =
    unfold observe_frame in
    on_row-Stamped p q t (take_frame s measurable now now_ns clock) live
      (λ a. take_frame-stamp s measurable now now_ns clock t a) h
call-Stamped p t (end_activity q) live other (a, row, stamp) =
    (a, unfold finish_activity in ground (arith, row), stamp)

calls-Stamped :
    (p : String) (t : ℕ) (cs : List Call) (live : Table LiveActivity)
    → All (GoesOn p) cs
    → Stamped p t live
    → Stamped p t (calls cs live)
calls-Stamped p t [] live on h = h
calls-Stamped p t (c ∷ cs) live on h =
    calls-Stamped p t cs (call c live) on.1 (call-Stamped p t c live on.0 h)

begins :
    (p : String) (clock : ℕ) (a : LiveActivity) (live : Table LiveActivity)
    → live p ≡ some a
    → a.upload_started_at ≡ none
    → Stamped p clock (set_phase p (of_run uploading) clock live)
unfolding set_phase enter
begins p clock a live row unset =
    (enter (of_run uploading) clock a, ground (arith, eq_refl p, row), ground (arith, unset))

-- The start of an upload is stamped once: when an activity that has no start yet enters the uploading
-- phase, its start is the clock of that moment, and whatever further phases and frames of any
-- profile follow, and whatever activities of other profiles start or finish, every snapshot of the
-- activity shows that start.
pub upload_start_kept :
    (p : String) (clock now : ℕ) (a : LiveActivity) (live : Table LiveActivity) (cs : List Call)
    (v : ActivityView)
    → live p ≡ some a
    → a.upload_started_at ≡ none
    → All (GoesOn p) cs
    → snapshot now p (calls cs (set_phase p (of_run uploading) clock live)) ≡ some v
    → v.activity.upload_started_at ≡ some clock
unfolding snapshot
upload_start_kept p clock now a live cs v row unset on shown =
    let later = set_phase p (of_run uploading) clock live in
    let (b, there, stamp) = calls-Stamped p clock cs later on (begins p clock a live row unset) in
    ground (arith, there, shown, stamp)
