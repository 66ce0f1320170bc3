-- ===== src/Derived/Serving.antt =====
-- How a desire is served: one publication at a time, to its end, and no desire lost.
use gd_sync_harness.Prelude.{
  ℕ, String, ◌≡◌, ◌≢◌, refl, sym, ap, ◌∙◌, true, false, Option, some, none, str_eq, arith, eq_refl,
  eq_iff, get_or,
}
use gd_sync_harness.Db.Table.{exists_where}
use gd_sync_harness.Derived.{
  CompilerDb, CompilerState, DerivedRun, TargetKey, Built, DerivedKind, publish, current,
  finish_compiler_run, finish_derived_success, published, desire_generation,
}
use gd_sync_harness.Derived.Claim.{
  claimed, nothing, is_refused, is_current, is_gated, returned, pinned, key_of, claim_derived_run,
}
use gd_sync_harness.Derived.Claiming.{
  Grant, Grant-result, Grant-row, Grant-profiles, claimed-Grant, returned-publish,
}

-- A row that refuses gives no run.
pub refused-nothing :
    (p id binding : String) (now : ℕ) (db : CompilerDb) (s : CompilerState)
    → db.states p ≡ some s
    → is_refused binding now s ≡ true
    → (claim_derived_run p id binding now db).0 ≡ nothing
unfolding claim_derived_run
refused-nothing p id binding now db s row refused = ground arith

claimed_injective :
    {r r' : DerivedRun} {k k' : TargetKey} → claimed r k ≡ claimed r' k' → (r ≡ r') × (k ≡ k')
claimed_injective h = (ground arith, ground arith)

-- The run that a granted claim returned.
pub Grant-returned :
    (p id binding : String) (now : ℕ) (db : CompilerDb) (r : DerivedRun) (key : TargetKey)
    → (claim_derived_run p id binding now db).0 ≡ claimed r key
    → (g : Grant p id binding now db)
    → (returned p id binding g.state now ≡ r) × (key_of binding g.state ≡ key)
Grant-returned p id binding now db r key h g =
    claimed_injective (sym (Grant-result p id binding now db g) ∙ h)

-- A publication pins the row against every claim.
pinned-refused :
    (p id binding : String) (now : ℕ) (s : CompilerState) (target : String)
    → (returned p id binding s now).kind ≡ publish
    → (returned p id binding s now).target_generation_id ≡ some target
    → (binding' : String) (now' : ℕ) → is_refused binding' now' (pinned binding s) ≡ true
unfolding returned pinned is_refused
pinned-refused p id binding now s target kind aim binding' now' = ground arith

-- A publication pins its profile: in every database where the row of the profile is still as the
-- claim that started the publication has left it, no claim starts another derived run, whatever the
-- id, the binding and the time.
pub publish_exclusive :
    (p id binding : String) (now : ℕ) (db : CompilerDb) (r : DerivedRun) (key : TargetKey)
    (target id' binding' : String) (now' : ℕ) (db' : CompilerDb)
    → (claim_derived_run p id binding now db).0 ≡ claimed r key
    → r.kind ≡ publish
    → r.target_generation_id ≡ some target
    → db'.states p ≡ (claim_derived_run p id binding now db).1.states p
    → (claim_derived_run p id' binding' now' db').0 ≡ nothing
publish_exclusive p id binding now db r key target id' binding' now' db' h kind aim kept =
    let g = claimed-Grant p id binding now db r key h in
    let same = (Grant-returned p id binding now db r key h g).0 in
    refused-nothing p id' binding' now' db' (pinned binding g.state)
      (kept ∙ Grant-row p id binding now db g)
      (pinned-refused p id binding now g.state target (ap (λ x. x.kind) same ∙ kind)
        (ap (λ x. x.target_generation_id) same ∙ aim) binding' now')

-- The row after a run that was claimed has succeeded, where nothing came in between.
served-row :
    (p id binding : String) (now done : ℕ) (db : CompilerDb) (r : DerivedRun) (key : TargetKey)
    → (claim_derived_run p id binding now db).0 ≡ claimed r key
    → (g : Grant p id binding now db)
    → (finish_derived_success p id binding r.target_generation_id r.kind done
          (claim_derived_run p id binding now db).1).1.states
        p
      ≡ some (published r.kind r.target_generation_id binding done (pinned binding g.state))
unfolding finish_derived_success
served-row p id binding now done db r key h g =
    ground (arith, eq_refl p, Grant-row p id binding now db g)

published-current :
    (p id binding : String) (now done : ℕ) (s : CompilerState)
    → let r = returned p id binding s now in
      (r.kind ≡ publish → r.target_generation_id ≢ none)
      → let t = published r.kind r.target_generation_id binding done (pinned binding s) in
        (t.derived_state ≡ current) × (is_current binding t ≡ true)
unfolding returned published pinned is_current
published-current p id binding now done s aim = (
  ground (arith, aim, eq_refl binding, eq_refl (get_or "" s.desired_derived_generation_id)),
  ground (arith, aim, eq_refl binding, eq_refl (get_or "" s.desired_derived_generation_id)),
)

claimed-current :
    (p id binding : String) (now done : ℕ) (s : CompilerState) (r : DerivedRun)
    → returned p id binding s now ≡ r
    → (r.kind ≡ publish → r.target_generation_id ≢ none)
    → let t = published r.kind r.target_generation_id binding done (pinned binding s) in
      (t.derived_state ≡ current) × (is_current binding t ≡ true)
claimed-current p id binding now done s r same aim =
    rw (← same) (published-current p id binding now done s (rw same aim))

current-refused :
    (binding : String) (now : ℕ) (s : CompilerState)
    → is_current binding s ≡ true
    → is_refused binding now s ≡ true
unfolding is_refused
current-refused binding now s h = ground arith

-- A desire is served once: when a claimed run succeeds and no command came in between, the row says
-- that the remote is current, and no claim for the same binding starts another run, whatever the id
-- and the time. A publication must have a target.
desire_served :
    (p id binding : String) (now done : ℕ) (db : CompilerDb) (r : DerivedRun) (key : TargetKey)
    (id' : String) (later : ℕ)
    → (claim_derived_run p id binding now db).0 ≡ claimed r key
    → (r.kind ≡ publish → r.target_generation_id ≢ none)
    → let after =
        (finish_derived_success p id binding r.target_generation_id r.kind done
          (claim_derived_run p id binding now db).1).1 in
      ((s : CompilerState) × (after.states p ≡ some s) × (s.derived_state ≡ current))
      × ((claim_derived_run p id' binding later after).0 ≡ nothing)
desire_served p id binding now done db r key id' later h aim =
    let g = claimed-Grant p id binding now db r key h in
    let same = (Grant-returned p id binding now db r key h g).0 in
    let t = published r.kind r.target_generation_id binding done (pinned binding g.state) in
    let row = served-row p id binding now done db r key h g in
    let fact = claimed-current p id binding now done g.state r same aim in
    (
      (t, row, fact.0),
      refused-nothing p id' binding later _ t row (current-refused binding later t fact.1),
    )

-- A new desire is wanted after the publication of another generation.
newer-wanted :
    (binding : String) (built done later : ℕ) (b : Built) (kind : DerivedKind)
    (target : Option String) (s : CompilerState)
    → b.generation_id ≢ ""
    → target ≢ some b.generation_id
    → is_refused binding later
        (published kind target binding done (desire_generation b binding built s))
      ≡ false
unfolding is_refused is_current is_gated published desire_generation
newer-wanted binding built done later b kind none s named other =
    ground (arith, eq_iff "" b.generation_id, eq_iff b.generation_id "")
newer-wanted binding built done later b kind (some g) s named other =
    ground (arith, eq_iff g b.generation_id, eq_iff b.generation_id "")

not-current :
    (binding : String) (built done : ℕ) (b : Built) (kind : DerivedKind) (target : Option String)
    (s : CompilerState)
    → b.generation_id ≢ ""
    → target ≢ some b.generation_id
    → (published kind target binding done (desire_generation b binding built s)).derived_state
      ≢ current
unfolding published desire_generation
not-current binding built done b kind none s named other h =
    ground (arith, h, eq_iff "" b.generation_id, eq_iff b.generation_id "")
not-current binding built done b kind (some g) s named other h =
    ground (arith, h, eq_iff g b.generation_id, eq_iff b.generation_id g)

survived-row :
    (p id binding : String) (now built done : ℕ) (db : CompilerDb) (g : Grant p id binding now db)
    (run_id : String) (b : Built) (kind : DerivedKind) (target : Option String)
    → (finish_derived_success p id binding target kind done (
          finish_compiler_run p run_id b binding built
            (claim_derived_run p id binding now db).1)).1.states
        p
      ≡ some (
          published kind target binding done
            (desire_generation b binding built (pinned binding g.state)))
unfolding finish_derived_success finish_compiler_run
survived-row p id binding now built done db g run_id b kind target =
    ground (arith, eq_refl p, Grant-row p id binding now db g)

survived-profiles :
    (p id binding : String) (now built done : ℕ) (db : CompilerDb) (g : Grant p id binding now db)
    (run_id : String) (b : Built) (kind : DerivedKind) (target : Option String)
    → (finish_derived_success p id binding target kind done (
        finish_compiler_run p run_id b binding built
          (claim_derived_run p id binding now db).1)).1.profiles
      ≡ db.profiles
unfolding finish_derived_success finish_compiler_run
survived-profiles p id binding now built done db g run_id b kind target =
    ground (arith, Grant-profiles p id binding now db g)

-- A desire that comes while a run is under way is not lost: when the run then succeeds, and did not
-- publish that very generation, the row does not say that the remote is current, and the next claim
-- with a fresh id starts the publication of the new generation.
pub desire_survives :
    (p id binding : String) (now built done later : ℕ) (db : CompilerDb) (r : DerivedRun)
    (key : TargetKey) (run_id id' : String) (b : Built)
    → (claim_derived_run p id binding now db).0 ≡ claimed r key
    → b.generation_id ≢ ""
    → r.target_generation_id ≢ some b.generation_id
    → let compiled =
        finish_compiler_run p run_id b binding built (claim_derived_run p id binding now db).1 in
      let after =
        (finish_derived_success p id binding r.target_generation_id r.kind done compiled).1 in
      exists_where (λ x. str_eq x.id id') after.derived_runs ≡ false
      → ((t : CompilerState) × (after.states p ≡ some t) × (t.derived_state ≢ current))
        × (next : DerivedRun) × (k : TargetKey) × ((claim_derived_run p id' binding later after).0
            ≡ claimed next k)
        × (next.kind ≡ publish)
        × (next.target_generation_id ≡ some b.generation_id)
unfolding published desire_generation
desire_survives p id binding now built done later db r key run_id id' b h named other fresh =
    let g = claimed-Grant p id binding now db r key h in
    let t =
      published r.kind r.target_generation_id binding done
        (desire_generation b binding built (pinned binding g.state)) in
    let compiled =
      finish_compiler_run p run_id b binding built (claim_derived_run p id binding now db).1 in
    let after =
      (finish_derived_success p id binding r.target_generation_id r.kind done compiled).1 in
    let kept =
      survived-profiles p id binding now built done db g run_id b r.kind r.target_generation_id in
    let grant : Grant p id' binding later after = record {
      profile = g.profile;
      state = t;
      profile_row = ap (λ x. x p) kept ∙ g.profile_row;
      active = g.active;
      state_row =
          survived-row p id binding now built done db g run_id b r.kind r.target_generation_id;
      wanted =
          newer-wanted binding built done later b r.kind r.target_generation_id
            (pinned binding g.state) named other;
      fresh = fresh;
    } in
    let runs = returned-publish p id' binding b.generation_id later t refl refl named in
    (
      (
        t,
        grant.state_row,
        not-current binding built done b r.kind r.target_generation_id (pinned binding g.state)
            named other,
      ),
      returned p id' binding t later,
      key_of binding t,
      Grant-result p id' binding later after grant,
      runs.0,
      runs.1,
    )
