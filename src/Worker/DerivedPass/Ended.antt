-- ===== src/Worker/DerivedPass/Ended.antt =====
-- A pass that claimed a derived run ends it, and releases the row.
use gd_sync_harness.Prelude.{
  ℕ, String, ◌≡◌, ◌≢◌, refl, ap, true, false, Option, none, some, List, [], ◌∷◌, All, arith,
  is_some, eq_refl, inl, inr, Bool-cases, Option-cases,
}
use gd_sync_harness.Db.Table.{update_where}
use gd_sync_harness.Db.Schema.{ok}
use gd_sync_harness.Sync.Commit.{stamp}
use gd_sync_harness.Derived.{
  CompilerDb, CompilerState, DerivedRun, DerivedKind, TargetKey, Failure, is_live_derived,
  finish_compiler_clean, update_derived_run_phase, finish_derived_success, finish_derived_failure,
  failed_state, charge_target, published, CleanState,
}
use gd_sync_harness.Derived.Claim.{claimed, claim_derived_run}
use gd_sync_harness.Derived.Claiming.{Grant-row, claimed-Grant}
use gd_sync_harness.Worker.{ExecError}
use gd_sync_harness.Worker.DerivedPass.{
  DerivedInputs, DerivedOutcome, is_cleanable, verification_of, Verification, valid, no_root,
  invalid, finalize_clean, report_derived, end_operation, run_derived, derived_pass,
}

abbrev pub HasState : String → CompilerDb → Type 0
HasState p db = is_some (db.states p) ≡ true

-- The run does not run any more, and no generation is pinned.
pub record Ended (p id : String) (db : CompilerDb) : Type 0 where
  pub over : All (λ r. is_live_derived p id r ≡ false) db.derived_runs
  pub row : CompilerState
  pub row_eq : db.states p ≡ some row
  pub unpinned : row.active_publish_generation_id ≡ none

-- An update that ends the running rows leaves none.
ended-over :
    (p id : String) (f : DerivedRun → DerivedRun) (rs : List DerivedRun)
    → ((r : DerivedRun) → is_live_derived p id (f r) ≡ false)
    → All (λ r. is_live_derived p id r ≡ false) (update_where (is_live_derived p id) f rs)
unfolding update_where
ended-over p id f [] ends = tt
ended-over p id f (r ∷ rs) ends = elim (Bool-cases (is_live_derived p id r)) [
  | inl b ↦ rw b (ends r, ended-over p id f rs ends)
  | inr b ↦ rw b (b, ended-over p id f rs ends)
]

failure-unpinned :
    (key : TargetKey) (f : Failure) (now_ns jitter : ℕ) (s : CompilerState)
    → (failed_state key f now_ns jitter s).active_publish_generation_id ≡ none
unfolding failed_state charge_target
failure-unpinned key f now_ns jitter s = ground arith

failure-Ended :
    (p id : String) (key : TargetKey) (f : Failure) (now_ns jitter : ℕ) (db : CompilerDb)
    → HasState p db
    → Ended p id (finish_derived_failure p id key f now_ns jitter db).1
unfolding finish_derived_failure
failure-Ended p id key f now_ns jitter db h = elim (Option-cases (db.states p)) [
  | inl n ↦ ground arith
  | inr (s, e) ↦
      rw (e, finish_derived_failure)
        (record {
          over = ended-over p id _ db.derived_runs (λ r. ground arith);
          row = failed_state key f now_ns jitter s;
          row_eq = ground (arith, eq_refl p);
          unpinned = failure-unpinned key f now_ns jitter s;
        })
]

success-Ended :
    (p id binding : String) (g : Option String) (kind : DerivedKind) (now : ℕ) (db : CompilerDb)
    → HasState p db
    → Ended p id (finish_derived_success p id binding g kind now db).1
      × ((finish_derived_success p id binding g kind now db).0 ≡ ok tt)
unfolding finish_derived_success published
success-Ended p id binding g kind now db h = elim (Option-cases (db.states p)) [
  | inl n ↦ ground arith
  | inr (s, e) ↦
      rw (e, finish_derived_success)
        (
          record {
            over = ended-over p id _ db.derived_runs (λ r. ground arith);
            row = published kind g binding now s;
            row_eq = ground (arith, eq_refl p);
            unpinned = refl;
          },
          refl,
        )
]

-- The clean-up keeps both.
finalize-Ended :
    (p id : String) (i : DerivedInputs) (o : DerivedOutcome) (db : CompilerDb)
    → Ended p id db
    → Ended p id (finalize_clean p i o db).0
unfolding finalize_clean finish_compiler_clean
finalize-Ended p id i o db w = elim (Bool-cases (is_cleanable w.row)) [
  | inr b ↦ rw (w.row_eq, finalize_clean, b) w
  | inl b ↦ elim (Bool-cases i.removes_files) [
    | inr c ↦ rw (w.row_eq, finalize_clean, b, c) w
    | inl c ↦
        rw (w.row_eq, finalize_clean, b, c)
          (record {
            over = w.over;
            row = record w.row {
              local_clean_state = CleanState.idle;
              local_clean_operation_id = none;
            };
            row_eq = ground (arith, eq_refl p, w.row_eq);
            unpinned = w.unpinned;
          })
  ]
]

report_derived-HasState :
    (p id : String) (phases : List String) (db : CompilerDb)
    → HasState p db
    → HasState p (report_derived p id phases db)
unfolding report_derived update_derived_run_phase
report_derived-HasState p id [] db h = h
report_derived-HasState p id (x ∷ xs) db h = report_derived-HasState p id xs _ h

module _ (p id binding : String) (i : DerivedInputs) where
  operation-Ended :
      (r : DerivedRun) (key : TargetKey) (e : Option ExecError) (db : CompilerDb)
      → HasState p db
      → Ended p id (end_operation p id binding i r key e db).0
  unfolding end_operation
  operation-Ended r key (some e) db h =
      finalize-Ended p id i _ _ (failure-Ended p id key _ i.done_at_ns i.jitter db h)
  operation-Ended r key none db h =
      let (w, fine) =
        success-Ended p id binding r.target_generation_id r.kind (stamp i.done_at_ns) db h in
      rw (fine, end_operation) (finalize-Ended p id i _ _ w)

  run-Ended :
      (r : DerivedRun) (key : TargetKey) (v : Verification) (db : CompilerDb)
      → v ≢ no_root
      → ((d : CompilerDb) → HasState p d → HasState p (i.meanwhile d))
      → HasState p db
      → Ended p id (run_derived p id binding i r key v db).0
  unfolding run_derived
  run-Ended r key no_root db there keeps h = absurd (there refl)
  run-Ended r key (invalid m) db there keeps h = failure-Ended p id key _ i.done_at_ns i.jitter db h
  run-Ended r key valid db there keeps h =
      operation-Ended r key _ _
        (keeps (report_derived p id i.phases db) (report_derived-HasState p id i.phases db h))

  verified-there : (r : DerivedRun) → i.verified ≢ no_root → verification_of i r ≢ no_root
  verified-there r there e = elim (Option-cases r.target_generation_id) [
    | inl n ↦ ground arith
    | inr (g, k) ↦ ground (arith, there)
  ]

  -- A pass that claims a derived run ends it, if the root of the compiler is found: whether the
  -- generation is valid, the remote can be changed or the files can be removed, and whatever others commit meanwhile, as long as the row of
  -- the profile stays, the run does not run any more and no generation is pinned.
  pub derived_pass-Ended :
      (db : CompilerDb) (r : DerivedRun) (key : TargetKey)
      → (claim_derived_run p id binding i.now db).0 ≡ claimed r key
      → i.verified ≢ no_root
      → ((d : CompilerDb) → HasState p d → HasState p (i.meanwhile d))
      → Ended p id (derived_pass p id binding i db).0
  unfolding derived_pass
  derived_pass-Ended db r key h there keeps =
      let g = claimed-Grant p id binding i.now db r key h in
      let start : HasState p (claim_derived_run p id binding i.now db).1 =
        ap is_some (Grant-row p id binding i.now db g) in
      rw (h, derived_pass)
        (run-Ended r key (verification_of i r) (claim_derived_run p id binding i.now db).1
          (verified-there r there) keeps start)
