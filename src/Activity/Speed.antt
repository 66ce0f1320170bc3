-- ===== src/Activity/Speed.antt =====
-- The views of activities.
use gd_sync_harness.Prelude.{
  ℕ, String, Bool, true, false, ◌≡◌, refl, List, [], ◌∷◌, str_eq, Bool-cases, Option-cases, inl,
  inr, arith, is_some, subst, none, some,
}
use mathlib.Core.Option.{Option, none, some}
use gd_sync_harness.Db.Table.{Table}
use gd_sync_harness.Db.Schema.{
  queued, scanning, planning, finalizing, uploading, downloading, deleting, reconciling,
}
use gd_sync_harness.Activity.{
  ActivityPhase, of_run, of_derived, ProgressSnapshot, LiveActivity, ActivityView, new_activity,
  start_activity, set_phase, enter, observe_frame, take_frame, finish_activity, snapshot,
  in_transfer, on_row, begun, rated, counted,
}

-- A call of the tracker.
pub data Call : Type 0 where
  begin_activity : String → String → Option String → Call
  phase_of : String → ActivityPhase → ℕ → Call
  frame_of : String → ProgressSnapshot → Bool → ℕ → ℕ → ℕ → Call
  end_activity : String → Call

abbrev pub call : Call → Table LiveActivity → Table LiveActivity
call (begin_activity p kind run_id) live = start_activity p kind run_id live
call (phase_of p phase clock) live = set_phase p phase clock live
call (frame_of p s measurable now now_ns clock) live =
    observe_frame p s measurable now now_ns clock live
call (end_activity p) live = finish_activity p live

abbrev pub calls : List Call → Table LiveActivity → Table LiveActivity
calls [] live = live
calls (c ∷ cs) live = calls cs (call c live)

-- A rate is shown in a transfer only, and an upload has its start.
abbrev pub IsHonest : LiveActivity → Type 0
IsHonest a =
    (is_some a.speed ≡ true → in_transfer a.phase ≡ true)
    × (is_some a.files_rate ≡ true → in_transfer a.phase ≡ true)
    × (a.phase ≡ some (of_run uploading) → is_some a.upload_started_at ≡ true)

abbrev AllHonest : Table LiveActivity → Type 0
AllHonest live = (p : String) (a : LiveActivity) → live p ≡ some a → IsHonest a

enter-IsHonest :
    (phase : ActivityPhase) (now : ℕ) (a : LiveActivity) → IsHonest a → IsHonest (enter phase now a)
unfolding enter
enter-IsHonest (of_derived phase) now a h = ground arith
enter-IsHonest (of_run queued) now a h = ground arith
enter-IsHonest (of_run scanning) now a h = ground arith
enter-IsHonest (of_run planning) now a h = ground arith
enter-IsHonest (of_run uploading) now a h = (λ k. refl, λ k. refl, λ k. refl)
enter-IsHonest (of_run downloading) now a h = (λ k. refl, λ k. refl, λ k. ground arith)
enter-IsHonest (of_run deleting) now a h = (λ k. refl, λ k. refl, λ k. ground arith)
enter-IsHonest (of_run reconciling) now a h = (λ k. refl, λ k. refl, λ k. ground arith)
enter-IsHonest (of_run finalizing) now a h = ground arith

begun-IsHonest :
    (phase : Option ActivityPhase) (clock : ℕ) (a : LiveActivity)
    → IsHonest a
    → IsHonest (begun phase clock a)
begun-IsHonest none clock a h = (λ k. refl, λ k. refl, λ k. refl)
begun-IsHonest (some phase) clock a h = h

rated-IsHonest :
    (b : Bool) (s : ProgressSnapshot) (now : ℕ) (a : LiveActivity)
    → in_transfer a.phase ≡ b
    → IsHonest a
    → IsHonest (rated b s now a)
rated-IsHonest true s now a e h = (λ k. e, λ k. e, h.2)
rated-IsHonest false s now a e h = h

take_frame-IsHonest :
    (s : ProgressSnapshot) (measurable : Bool) (now now_ns clock : ℕ) (a : LiveActivity)
    → IsHonest a
    → IsHonest (take_frame s measurable now now_ns clock a)
unfolding take_frame
take_frame-IsHonest s measurable now now_ns clock a h =
    let b = begun a.phase clock (record a { counters = counted a.counters s }) in
    let honest = begun-IsHonest a.phase clock (record a { counters = counted a.counters s }) h in
    rated-IsHonest (in_transfer b.phase) s now_ns b refl honest

on_row-AllHonest :
    (p : String) (f : LiveActivity → LiveActivity) (live : Table LiveActivity)
    → ((a : LiveActivity) → IsHonest a → IsHonest (f a))
    → AllHonest live
    → AllHonest (on_row p f live)
on_row-AllHonest p f live keeps h j a e = elim (Bool-cases (str_eq p j)) [
  | inl b ↦ elim (Option-cases (live j)) [
    | inl gone ↦ absurd (ground arith)
    | inr (x, row) ↦ let same : f x ≡ a = ground arith in subst IsHonest same (keeps x (h j x row))
  ]
  | inr b ↦ h j a (ground arith)
]

new-IsHonest : (kind : String) (run_id : Option String) → IsHonest (new_activity kind run_id)
new-IsHonest kind run_id = (λ k. ground arith, λ k. ground arith, λ k. ground arith)

started-AllHonest :
    (p kind : String) (run_id : Option String) (live : Table LiveActivity)
    → AllHonest live
    → AllHonest (start_activity p kind run_id live)
unfolding start_activity
started-AllHonest p kind run_id live h j a e = elim (Bool-cases (str_eq p j)) [
  | inl b ↦
      let same : new_activity kind run_id ≡ a = ground arith in
      subst IsHonest same (new-IsHonest kind run_id)
  | inr b ↦ h j a (ground arith)
]

ended-AllHonest :
    (p : String) (live : Table LiveActivity) → AllHonest live → AllHonest (finish_activity p live)
unfolding finish_activity
ended-AllHonest p live h j a e = elim (Bool-cases (str_eq p j)) [
  | inl b ↦ absurd (ground arith)
  | inr b ↦ h j a (ground arith)
]

call-AllHonest : (c : Call) (live : Table LiveActivity) → AllHonest live → AllHonest (call c live)
call-AllHonest (begin_activity p kind run_id) live h = started-AllHonest p kind run_id live h
call-AllHonest (phase_of p phase clock) live h =
    unfold set_phase in on_row-AllHonest p (enter phase clock) live (enter-IsHonest phase clock) h
call-AllHonest (frame_of p s measurable now now_ns clock) live h =
    unfold observe_frame in
    on_row-AllHonest p (take_frame s measurable now now_ns clock) live
      (take_frame-IsHonest s measurable now now_ns clock) h
call-AllHonest (end_activity p) live h = ended-AllHonest p live h

calls-AllHonest :
    (cs : List Call) (live : Table LiveActivity) → AllHonest live → AllHonest (calls cs live)
calls-AllHonest [] live h = h
calls-AllHonest (c ∷ cs) live h = calls-AllHonest cs (call c live) (call-AllHonest c live h)

-- A live view is honest about the phase: whatever calls the tracker had, of any profiles and in any
-- order, a snapshot that shows a byte rate or a file rate is of an activity in a phase that
-- transfers, and a snapshot of an activity that uploads has a time for the start of the upload.
pub shown-IsHonest :
    (cs : List Call) (now : ℕ) (p : String) (v : ActivityView)
    → snapshot now p (calls cs (λ j. none)) ≡ some v
    → IsHonest v.activity
unfolding snapshot
shown-IsHonest cs now p v e = elim (Option-cases (calls cs (λ j. none) p)) [
  | inl gone ↦ absurd (ground arith)
  | inr (a, row) ↦
      let same : a ≡ v.activity = ground arith in
      subst IsHonest same (calls-AllHonest cs (λ j. none) (λ j x k. absurd (ground arith)) p a row)
]
