-- ===== src/Activity/Checkpoints.antt =====
-- The checkpoints of an attempt, as executeReconcileAttemptOwned of internal/cli/worker.go asks for
-- them.
use gd_sync_harness.Prelude.{
  subst, ℕ, ◌+◌, ◌≤◌, ◌≡◌, ◌∙◌, Bool, true, false, ◌||◌, List, [], ◌∷◌, refl, arith, Bool-cases,
  inl, inr, ap,
}
use mathlib.Core.Option.{Option, none, some}
use gd_sync_harness.Activity.{
  CheckpointTracker, note_frame, consume_checkpoint, checkpoint_interval, checkpoint_due,
}

-- What reaches the tracker: a frame of rclone, or the start of a phase.
pub data Trigger : Type 0 where
  frame_at : Bool → ℕ → Trigger
  phase_at : ℕ → Trigger

-- What the two callbacks of the attempt do with the tracker. Whether the checkpoint is then written is
-- not modelled: an attempt without a live activity writes none, and an error of the write is ignored.
unfoldable pub trigger : Trigger → CheckpointTracker → Option Bool × CheckpointTracker
unfolding note_frame consume_checkpoint
trigger (frame_at measurable now) c = consume_checkpoint false now (note_frame measurable c)
trigger (phase_at now) c = consume_checkpoint true now c

abbrev pub onto : Option Bool → List Bool → List Bool
onto none ws = ws
onto (some w) ws = w ∷ ws

-- The flags that the tracker gives up for a checkpoint, in their order, and the tracker afterwards.
unfoldable pub consumed_flags : List Trigger → CheckpointTracker → List Bool × CheckpointTracker
unfolding trigger
consumed_flags [] c = ([], c)
consumed_flags (t ∷ ts) c =
    let step = trigger t c in let rest = consumed_flags ts step.1 in (onto step.0 rest.0, rest.1)

abbrev pub any_true : List Bool → Bool
any_true [] = false
any_true (b ∷ bs) = b || any_true bs

abbrev pub is_measurable : Trigger → Bool
is_measurable (frame_at measurable now) = measurable
is_measurable (phase_at now) = false

abbrev pub any_measurable : List Trigger → Bool
any_measurable [] = false
any_measurable (t ∷ ts) = is_measurable t || any_measurable ts

abbrev flag_or : Option Bool → Bool → Bool
flag_or none b = b
flag_or (some w) b = w || b

step_keeps :
    (t : Trigger) (c : CheckpointTracker)
    → flag_or (trigger t c).0 (trigger t c).1.has_measurable ≡ (is_measurable t || c.has_measurable)
unfolding trigger note_frame consume_checkpoint
step_keeps (frame_at measurable now) c = elim (Bool-cases (checkpoint_due now c.last_checkpoint)) [
  | inl b ↦ rw b (ground arith)
  | inr b ↦ rw b refl
]
step_keeps (phase_at now) c = ground arith

any_true-onto :
    (o : Option Bool) (ws : List Bool) (b : Bool)
    → (any_true (onto o ws) || b) ≡ flag_or o (any_true ws || b)
any_true-onto none ws b = refl
any_true-onto (some w) ws b = ground arith

flag_or-later : (o : Option Bool) (a b : Bool) → flag_or o (a || b) ≡ (a || flag_or o b)
flag_or-later none a b = refl
flag_or-later (some w) a b = ground arith

shifted : (a m b : Bool) → (a || (m || b)) ≡ ((m || a) || b)
shifted a m b = ground arith

-- What the consumed flags and the tracker tell together.
flags_kept :
    (ts : List Trigger) (c : CheckpointTracker)
    → (any_true (consumed_flags ts c).0 || (consumed_flags ts c).1.has_measurable)
      ≡ (any_measurable ts || c.has_measurable)
unfolding consumed_flags
flags_kept [] c = refl
flags_kept (t ∷ ts) c =
    let step = trigger t c in
    let rest = consumed_flags ts step.1 in
    any_true-onto step.0 rest.0 rest.1.has_measurable
    ∙ ap (flag_or step.0) (flags_kept ts step.1)
    ∙ flag_or-later step.0 (any_measurable ts) step.1.has_measurable
    ∙ ap (λ b. any_measurable ts || b) (step_keeps t c)
    ∙ shifted (any_measurable ts) (is_measurable t) c.has_measurable

step-clears :
    (t : Trigger) (c : CheckpointTracker) (w : Bool)
    → (trigger t c).0 ≡ some w
    → (w ≡ (is_measurable t || c.has_measurable)) × ((trigger t c).1.has_measurable ≡ false)
unfolding trigger note_frame consume_checkpoint
step-clears (frame_at measurable now) c w h =
    elim (Bool-cases (checkpoint_due now c.last_checkpoint)) [
      | inl b ↦ ground (arith, h, b)
      | inr b ↦ ground (arith, h, b)
    ]
step-clears (phase_at now) c w h = ground (arith, h)

-- A checkpoint tells of the time since the one before it, and of no more: where the tracker consumed
-- nothing over some frames and phases, the flag of the next checkpoint says that there was measurable
-- progress exactly if some frame of that time had it, the triggering one included, or the tracker
-- said so before; and the tracker then starts anew. The flag is what the attempt hands to
-- UpdateRunStats, whose failure it ignores; what the tracker holds at the end of an attempt is
-- dropped with it.
pub checkpoint_exact :
    (ts : List Trigger) (t : Trigger) (c : CheckpointTracker) (w : Bool)
    → (consumed_flags ts c).0 ≡ []
    → (trigger t (consumed_flags ts c).1).0 ≡ some w
    → (w ≡ (is_measurable t || (any_measurable ts || c.has_measurable)))
      × ((trigger t (consumed_flags ts c).1).1.has_measurable ≡ false)
checkpoint_exact ts t c w quiet wrote =
    let after = (consumed_flags ts c).1 in
    let (flag, clear) = step-clears t after w wrote in
    let held : after.has_measurable ≡ (any_measurable ts || c.has_measurable) =
      subst (λ ws. (any_true ws || after.has_measurable) ≡ (any_measurable ts || c.has_measurable))
        quiet (flags_kept ts c) in
    (flag ∙ ap (λ b. is_measurable t || b) held, clear)

-- A frame writes no more than one checkpoint an hour.
pub frame_sparse :
    (measurable w : Bool) (now last : ℕ) (c : CheckpointTracker)
    → c.last_checkpoint ≡ some last
    → (trigger (frame_at measurable now) c).0 ≡ some w
    → last + checkpoint_interval ≤ now
unfolding trigger note_frame consume_checkpoint
frame_sparse measurable w now last c before wrote = ground arith
