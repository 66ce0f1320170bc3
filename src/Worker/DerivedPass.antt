-- ===== src/Worker/DerivedPass.antt =====
-- One pass over the derived namespace of a profile: runDerivedPass and finalizePendingCompilerClean of
-- internal/cli/worker.go. The answers of the compiler's store, of rclone and of the clock are inputs,
-- and so is what other processes commit while the remote is changed.
pub mod Ended
use gd_sync_harness.Prelude.{
  ℕ, String, Bool, true, false, not, ◌&&◌, Option, none, some, List, [], ◌∷◌, is_some,
  if◌then◌else◌,
}
use gd_sync_harness.Db.Schema.{Err, Result, ok, err, terminal}
use gd_sync_harness.Sync.Commit.{RunFailure, stamp}
use gd_sync_harness.Derived.{
  CompilerDb, CompilerState, CleanState, committing, idle, DerivedRun, DerivedKind, TargetKey,
  Failure, publish, purge, finish_compiler_clean, update_derived_run_phase, finish_derived_success,
  finish_derived_failure,
}
use gd_sync_harness.Derived.Claim.{DerivedClaim, claimed, nothing, failed, claim_derived_run}
use gd_sync_harness.Worker.{ExecError, classify_error}

-- The check of a generation: it is valid, it is not, or the root of the compiler is not found.
pub data Verification : Type 0 where
  valid no_root : Verification
  invalid : String → Verification

pub record DerivedInputs : Type 0 where
  pub now : ℕ
  -- CompilerRoot and VerifyGeneration
  pub verified : Verification
  -- Publish or Purge; none is success
  pub operation : Option ExecError
  -- the phases that the operation reports
  pub phases : List String
  -- what others commit while it runs
  pub meanwhile : CompilerDb → CompilerDb
  -- whether the files of the compiler can be removed
  pub removes_files : Bool
  pub done_at_ns : ℕ
  pub jitter : ℕ

pub data DerivedOutcome : Type 0 where
  unclaimed rootless invalid_generation published failed_operation clean_failed : DerivedOutcome
  refused : Err → DerivedOutcome

abbrev is_committing : CleanState → Bool
is_committing committing = true
is_committing idle = false

-- A clean that is to be finished: nothing is being published.
abbrev pub is_cleanable : CompilerState → Bool
is_cleanable s = is_committing s.local_clean_state && not (is_some s.active_publish_generation_id)

-- finalizePendingCompilerClean, whose second look at the row sees the same as the first
unfoldable pub finalize_clean :
    String → DerivedInputs → DerivedOutcome → CompilerDb → CompilerDb × DerivedOutcome
finalize_clean p i o db = elim (db.states p) [
  | none ↦ (db, clean_failed)
  | some s ↦
      if not (is_cleanable s)
      then (db, o)
      else if i.removes_files
      then (finish_compiler_clean p db, o)
      else (db, clean_failed)
]

unfoldable pub report_derived : String → String → List String → CompilerDb → CompilerDb
report_derived p id [] db = db
report_derived p id (phase ∷ phases) db =
    report_derived p id phases (update_derived_run_phase p id phase db)

abbrev pub to_failure : RunFailure → Failure
to_failure f = record { code = f.code; classification = f.classification; message = f.message }

abbrev no_target : ExecError
no_target = record {
  canceled = false;
  is_source_unstable = false;
  is_budget_exceeded = false;
  ownership = none;
  exit_code = none;
  message = "derived publish has no target generation";
}

-- The error of the operation: a publication without a target does not start.
abbrev pub operation_error : DerivedInputs → DerivedRun → Option ExecError
operation_error i r = elim r.kind [
  | purge ↦ i.operation
  | publish ↦ (elim r.target_generation_id [ none ↦ some no_target | some g ↦ i.operation ])
]

-- The generation of a publication is verified under the compiler's lock.
abbrev pub verification_of : DerivedInputs → DerivedRun → Verification
verification_of i r = elim r.kind [
  | purge ↦ valid
  | publish ↦ (elim r.target_generation_id [ none ↦ valid | some g ↦ i.verified ])
]

-- An outcome that was committed or not.
abbrev pub settled : Result (Unit {0}) → DerivedOutcome → DerivedOutcome
settled (ok u) o = o
settled (err e) o = refused e

module _ (p id binding : String) (i : DerivedInputs) where
  abbrev fail_with : TargetKey → Failure → CompilerDb → Result (Unit {0}) × CompilerDb
  fail_with key f db = finish_derived_failure p id key f i.done_at_ns i.jitter db

  -- After the operation.
  unfoldable pub end_operation :
      DerivedRun → TargetKey → Option ExecError → CompilerDb → CompilerDb × DerivedOutcome
  unfolding finalize_clean
  end_operation r key (some e) db =
      let done = fail_with key (to_failure (classify_error e "derived_publish")) db in
      finalize_clean p i (settled done.0 failed_operation) done.1
  end_operation r key none db =
      let done =
        finish_derived_success p id binding r.target_generation_id r.kind (stamp i.done_at_ns) db in
      elim done.0 [ err e ↦ (done.1, refused e) | ok u ↦ finalize_clean p i published done.1 ]

  -- From the claimed run on.
  unfoldable pub run_derived :
      DerivedRun → TargetKey → Verification → CompilerDb → CompilerDb × DerivedOutcome
  unfolding end_operation report_derived
  run_derived r key no_root db = (db, rootless)
  run_derived r key (invalid message) db =
      let done =
        fail_with key
          (record {
            code = "derived_generation_invalid";
            classification = terminal;
            message = message;
          })
          db in
      (done.1, settled done.0 invalid_generation)
  run_derived r key valid db =
      end_operation r key (operation_error i r) (i.meanwhile (report_derived p id i.phases db))

  -- runDerivedPass
  unfoldable pub derived_pass : CompilerDb → CompilerDb × DerivedOutcome
  unfolding run_derived
  derived_pass db =
      let c = claim_derived_run p id binding i.now db in
      elim c.0 [
        | nothing ↦ (c.1, unclaimed)
        | failed e ↦ (c.1, refused e)
        | claimed r key ↦ run_derived r key (verification_of i r) c.1
      ]
