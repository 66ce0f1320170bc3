-- ===== src/Examples/Deriveds.antt =====
-- A profile whose generation "g1" is to be published, and one whose remote copy is to be purged.
use gd_sync_harness.Prelude.{
  String, none, eq_refl, ◌∷◌, ◌≡◌, ◌≢◌, ◌+◌, ltb, true, false, some, [], refl, str_eq, get_or, ap,
  arith,
}
use gd_sync_harness.Db.Table.{exists_where, update_where}
use gd_sync_harness.Db.Schema.{terminal, retryable}
use gd_sync_harness.Retry.{retry_backoff}
use gd_sync_harness.Sync.Commit.{stamp}
use gd_sync_harness.Derived.{
  current, CompilerDb, CompilerState, DerivedRun, TargetKey, Built, Failure, generation, absent,
  key_eq, publish, purge, new_state, finish_derived_success, finish_derived_failure,
  finish_compiler_run,
}
use gd_sync_harness.Derived.Claim.{claim_derived_run, claimed, nothing, returned, key_of, is_gated}
use gd_sync_harness.Derived.Serving.{publish_exclusive, desire_survives}
use gd_sync_harness.Derived.Gate.{failure_gates, new_desire_opens}
use gd_sync_harness.Derived.Overlap.{purge_overlaps}
use gd_sync_harness.Worker.DerivedPass.{DerivedInputs, valid, derived_pass}
use gd_sync_harness.Worker.DerivedPass.Ended.{HasState, Ended, derived_pass-Ended}
use gd_sync_harness.Examples.Data.{only, live_profile}

abbrev desiring : CompilerState
desiring = record new_state {
  desired_derived_mode = generation;
  desired_derived_generation_id = some "g1";
  desired_derived_revision = 1;
}

abbrev purging : CompilerState
purging = record new_state { desired_derived_mode = absent; desired_derived_revision = 2 }

abbrev holding : CompilerState → CompilerDb
holding s = record {
  profiles = only "p" live_profile;
  states = only "p" s;
  compiler_runs = [];
  derived_runs = [];
}

abbrev run_of : CompilerState → DerivedRun
run_of s = returned "p" "d1" "b" s 5

abbrev after_claim : CompilerState → CompilerDb
after_claim s = (claim_derived_run "p" "d1" "b" 5 (holding s)).1

abbrev built : Built
built = record {
  generation_id = "g2";
  snapshot_id = "s2";
  policy_hash = "h1";
  contract_hash = "c1";
  file_count = 3;
  warning_count = 0;
}

abbrev lost : Failure
lost = record { code = "network"; classification = retryable; message = "timeout" }

named_two : built.generation_id ≢ ""
named_two e = ground (arith, ap (λ s. str_eq s "") e)

publishing :
    (claim_derived_run "p" "d1" "b" 5 (holding desiring)).0
    ≡ claimed (run_of desiring) (key_of "b" desiring)
unfolding claim_derived_run returned exists_where
publishing = refl

removing :
    (claim_derived_run "p" "d1" "b" 5 (holding purging)).0
    ≡ claimed (run_of purging) (key_of "b" purging)
unfolding claim_derived_run returned exists_where
removing = refl

publish_exclusive_example : (claim_derived_run "p" "d2" "b2" 9 (after_claim desiring)).0 ≡ nothing
unfolding returned
publish_exclusive_example =
    publish_exclusive "p" "d1" "b" 5 (holding desiring) (run_of desiring) (key_of "b" desiring) "g1"
      "d2" "b2" 9 (after_claim desiring) publishing refl refl refl

abbrev served : CompilerDb
served =
    (finish_derived_success "p" "d1" "b" (run_of desiring).target_generation_id
      (run_of desiring).kind 8 (after_claim desiring)).1

abbrev desired_meanwhile : CompilerDb
desired_meanwhile =
    (finish_derived_success "p" "d1" "b" (run_of desiring).target_generation_id
      (run_of desiring).kind 8 (finish_compiler_run "p" "c2" built "b" 7 (after_claim desiring))).1

fresh_then : exists_where (λ x. str_eq x.id "d2") desired_meanwhile.derived_runs ≡ false
unfolding finish_derived_success finish_compiler_run claim_derived_run exists_where update_where
fresh_then = refl

desire_survives_example :
    ((t : CompilerState) × (desired_meanwhile.states "p" ≡ some t) × (t.derived_state ≢ current))
    × (next : DerivedRun) × (k : TargetKey) × ((claim_derived_run "p" "d2" "b" 9
          desired_meanwhile).0
        ≡ claimed next k)
    × (next.kind ≡ publish)
    × (next.target_generation_id ≡ some "g2")
unfolding returned
desire_survives_example =
    desire_survives "p" "d1" "b" 5 7 8 9 (holding desiring) (run_of desiring) (key_of "b" desiring)
      "c2" "d2" built publishing named_two
      (λ e. ground (arith, ap (λ o. str_eq (get_or "" o) "g1") e)) fresh_then

abbrev after_loss : CompilerDb
after_loss =
    (finish_derived_failure "p" "d1" (key_of "b" desiring) lost 8000000 0 (after_claim desiring)).1

failure_gates_example :
    (lost.classification ≡ terminal → (claim_derived_run "p" "d2" "b" 9 after_loss).0 ≡ nothing)
    × (lost.classification ≡ retryable
        → ltb 9 (stamp (8000000 + retry_backoff (desiring.consecutive_failures + 1) 0)) ≡ true
        → (claim_derived_run "p" "d2" "b" 9 after_loss).0 ≡ nothing)
    × (u : CompilerState) × (after_loss.states "p" ≡ some u)
    × ((t : CompilerState) (other : String)
        → t.retry_target_key ≡ u.retry_target_key
        → key_eq (key_of "b" desiring) (key_of other t) ≡ false
        → is_gated other 9 t ≡ false)
failure_gates_example =
    failure_gates "p" "d1" "b" 5 (holding desiring) lost 8000000 0 (run_of desiring)
      (key_of "b" desiring) desiring "d2" 9 publishing refl

abbrev rebuilt : CompilerDb
rebuilt = finish_compiler_run "p" "c2" built "b" 8 after_loss

fresh_rebuilt : exists_where (λ x. str_eq x.id "d2") rebuilt.derived_runs ≡ false
unfolding finish_derived_failure finish_compiler_run claim_derived_run exists_where update_where
fresh_rebuilt = refl

new_desire_opens_example :
    (next : DerivedRun) × (k : TargetKey) × ((claim_derived_run "p" "d2" "b" 9 rebuilt).0
      ≡ claimed next k)
    × (next.kind ≡ publish)
    × (next.target_generation_id ≡ some "g2")
new_desire_opens_example =
    new_desire_opens "p" "d1" "b" 5 (holding desiring) lost 8000000 0 (run_of desiring)
      (key_of "b" desiring) desiring "c2" "d2" 8 9 built publishing refl named_two (λ e. cc)
      fresh_rebuilt

fresh_purging : exists_where (λ x. str_eq x.id "d2") (after_claim purging).derived_runs ≡ false
unfolding claim_derived_run exists_where
fresh_purging = refl

purge_overlaps_example :
    (second : DerivedRun) × ((claim_derived_run "p" "d2" "b" 6 (after_claim purging)).0
      ≡ claimed second (key_of "b" purging))
    × (second.kind ≡ purge)
unfolding returned
purge_overlaps_example =
    purge_overlaps "p" "d1" "b" 5 6 (holding purging) (run_of purging) (key_of "b" purging) "d2"
      removing refl fresh_purging

abbrev stale_key : TargetKey
stale_key = record (key_of "b" desiring) { generation_id = "g0"; revision = 0 }

abbrev unpinned_late : CompilerDb
unpinned_late = (finish_derived_failure "p" "d0" stale_key lost 8000000 0 (after_claim desiring)).1

fresh_unpinned : exists_where (λ x. str_eq x.id "d2") unpinned_late.derived_runs ≡ false
unfolding finish_derived_failure claim_derived_run exists_where update_where
fresh_unpinned = refl

-- A pass that publishes, while a new compilation ends.
abbrev passing : DerivedInputs
passing = record {
  now = 5;
  verified = valid;
  operation = none;
  phases = "upload" ∷ [];
  meanwhile = λ db. finish_compiler_run "p" "c2" built "b" 7 db;
  removes_files = true;
  done_at_ns = 8000000;
  jitter = 0;
}

compiles_on : (d : CompilerDb) → HasState "p" d → HasState "p" (passing.meanwhile d)
unfolding finish_compiler_run
compiles_on d h = ground (arith, eq_refl "p")

derived_pass-Ended_example : Ended "p" "d1" (derived_pass "p" "d1" "b" passing (holding desiring)).0
derived_pass-Ended_example =
    derived_pass-Ended "p" "d1" "b" passing (holding desiring) (run_of desiring)
      (key_of "b" desiring) publishing (λ e. ground (arith, e)) compiles_on
