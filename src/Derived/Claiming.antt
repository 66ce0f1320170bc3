-- ===== src/Derived/Claiming.antt =====
-- When a derived run starts, and what the claim leaves in the row.
use gd_sync_harness.Prelude.{
  ℕ, String, ◌≡◌, ◌≢◌, false, inl, inr, some, ◌∷◌, [], ◌++◌, str_eq, arith, eq_refl, eq_iff,
  Option-cases,
}
use gd_sync_harness.Db.Table.{exists_where}
use gd_sync_harness.Db.Schema.{Profile}
use gd_sync_harness.Derived.{CompilerDb, CompilerState, DerivedRun, TargetKey, generation, publish}
use gd_sync_harness.Derived.Claim.{
  claimed, is_inactive, is_refused, returned, new_derived, pinned, key_of, start_derived,
  claim_derived_run,
}

-- A claim that succeeds, with the rows that it read.
pub record Grant (p id binding : String) (now : ℕ) (db : CompilerDb) : Type 0 where
  pub profile : Profile
  pub state : CompilerState
  pub profile_row : db.profiles p ≡ some profile
  pub active : is_inactive profile ≡ false
  pub state_row : db.states p ≡ some state
  pub wanted : is_refused binding now state ≡ false
  pub fresh : exists_where (λ r. str_eq r.id id) db.derived_runs ≡ false

module _ (p id binding : String) (now : ℕ) (db : CompilerDb) where
  -- What the claim returns and leaves.
  Grant-claim :
      (g : Grant p id binding now db)
      → claim_derived_run p id binding now db ≡ start_derived p id binding g.state now db
  unfolding claim_derived_run
  Grant-claim g = ground arith

  pub Grant-result :
      (g : Grant p id binding now db)
      → (claim_derived_run p id binding now db).0
        ≡ claimed (returned p id binding g.state now) (key_of binding g.state)
  unfolding start_derived
  Grant-result g = rw (Grant-claim g) (ground arith)

  pub Grant-row :
      (g : Grant p id binding now db)
      → (claim_derived_run p id binding now db).1.states p ≡ some (pinned binding g.state)
  unfolding start_derived
  Grant-row g = rw (Grant-claim g) (ground (arith, eq_refl p))

  pub Grant-profiles :
      (g : Grant p id binding now db)
      → (claim_derived_run p id binding now db).1.profiles ≡ db.profiles
  unfolding start_derived
  Grant-profiles g = rw (Grant-claim g) (ground arith)

  pub Grant-runs :
      (g : Grant p id binding now db)
      → (claim_derived_run p id binding now db).1.derived_runs
        ≡ db.derived_runs ++ new_derived p id binding g.state now ∷ []
  unfolding start_derived
  Grant-runs g = rw (Grant-claim g) (ground arith)

  pub claimed-Grant :
      (r : DerivedRun) (key : TargetKey)
      → (claim_derived_run p id binding now db).0 ≡ claimed r key
      → Grant p id binding now db
  unfolding claim_derived_run
  claimed-Grant r key h = elim (Option-cases (db.profiles p)) [
    | inl e ↦ ground arith
    | inr (pr, e) ↦ elim (Option-cases (db.states p)) [
      | inl k ↦ ground arith
      | inr (s, k) ↦ record {
        profile = pr;
        state = s;
        profile_row = e;
        active = ground arith;
        state_row = k;
        wanted = ground arith;
        fresh = ground arith;
      }
    ]
  ]

-- The run of a desire for a generation.
pub returned-publish :
    (p id binding generation_id : String) (now : ℕ) (s : CompilerState)
    → s.desired_derived_mode ≡ generation
    → s.desired_derived_generation_id ≡ some generation_id
    → generation_id ≢ ""
    → ((returned p id binding s now).kind ≡ publish)
      × ((returned p id binding s now).target_generation_id ≡ some generation_id)
unfolding returned
returned-publish p id binding generation_id now s mode desired named =
    (ground arith, ground (arith, eq_iff generation_id ""))
