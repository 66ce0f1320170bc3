-- ===== src/Derived/Overlap.antt =====
-- Where derived runs of one profile overlap: a purge pins nothing, and the end of a run that is not
-- the pinned one takes the pin away.
use gd_sync_harness.Prelude.{
  ℕ, String, ◌≡◌, refl, ap, ◌∙◌, false, some, none, str_eq, arith, eq_refl,
}
use gd_sync_harness.Db.Table.{exists_where}
use gd_sync_harness.Derived.{
  CompilerDb, CompilerState, DerivedRun, TargetKey, Failure, publish, purge, key_eq,
  finish_derived_failure, failed_state,
}
use gd_sync_harness.Derived.Claim.{
  claimed, is_refused, is_current, is_gated, returned, pinned, key_of, claim_derived_run,
}
use gd_sync_harness.Derived.Claiming.{Grant, Grant-result, Grant-row, Grant-profiles, claimed-Grant}
use gd_sync_harness.Derived.Serving.{Grant-returned}
use gd_sync_harness.Derived.Gate.{key_eq_refl}

-- The row of a claimed run without its pin.
abbrev unpinned : String → CompilerState → CompilerState
unpinned binding s = record (pinned binding s) { active_publish_generation_id = none }

unpinned-wanted :
    (binding : String) (now later : ℕ) (s : CompilerState)
    → is_refused binding now s ≡ false
    → is_refused binding later (unpinned binding s) ≡ false
unfolding pinned is_refused is_current is_gated
unpinned-wanted binding now later s wanted =
    ground (arith, key_eq_refl (key_of binding s), eq_refl "")

-- A row without its pin gives the same run again.
unpinned-again :
    (p id id' binding : String) (now later : ℕ) (db after : CompilerDb)
    (g : Grant p id binding now db)
    → after.profiles ≡ db.profiles
    → after.states p ≡ some (unpinned binding g.state)
    → exists_where (λ x. str_eq x.id id') after.derived_runs ≡ false
    → (claim_derived_run p id' binding later after).0
      ≡ claimed (returned p id' binding (unpinned binding g.state) later) (key_of binding g.state)
unfolding pinned
unpinned-again p id id' binding now later db after g kept row fresh =
    Grant-result p id' binding later after (record {
      profile = g.profile;
      state = unpinned binding g.state;
      profile_row = ap (λ x. x p) kept ∙ g.profile_row;
      active = g.active;
      state_row = row;
      wanted = unpinned-wanted binding now later g.state g.wanted;
      fresh = fresh;
    })

-- The run that comes again is that of the first claim, but for its id and time.
again-same :
    (p id id' binding : String) (now later : ℕ) (s : CompilerState)
    → ((returned p id' binding (unpinned binding s) later).kind
        ≡ (returned p id binding s now).kind)
      × ((returned p id' binding (unpinned binding s) later).target_generation_id
          ≡ (returned p id binding s now).target_generation_id)
unfolding returned pinned
again-same p id id' binding now later s = (refl, refl)

purge-unpinned :
    (p id binding : String) (now : ℕ) (s : CompilerState)
    → (returned p id binding s now).kind ≡ purge
    → pinned binding s ≡ unpinned binding s
unfolding returned pinned
purge-unpinned p id binding now s kind = ground arith

-- A purge does not keep other runs out: while one is under way, a claim with a fresh id starts a
-- second purge for the same desire, at any time.
pub purge_overlaps :
    (p id binding : String) (now later : ℕ) (db : CompilerDb) (r : DerivedRun) (key : TargetKey)
    (id' : String)
    → (claim_derived_run p id binding now db).0 ≡ claimed r key
    → r.kind ≡ purge
    → let after = (claim_derived_run p id binding now db).1 in
      exists_where (λ x. str_eq x.id id') after.derived_runs ≡ false
      → (second : DerivedRun) × ((claim_derived_run p id' binding later after).0
          ≡ claimed second key)
        × (second.kind ≡ purge)
purge_overlaps p id binding now later db r key id' h kind fresh =
    let g = claimed-Grant p id binding now db r key h in
    let (run, same) = Grant-returned p id binding now db r key h g in
    let purges = ap (λ x. x.kind) run ∙ kind in
    let row =
      Grant-row p id binding now db g ∙ ap some (purge-unpinned p id binding now g.state purges) in
    let second = returned p id' binding (unpinned binding g.state) later in
    (
      second,
      unpinned-again p id id' binding now later db _ g (Grant-profiles p id binding now db g) row
            fresh
          ∙ ap (claimed second) same,
      (again-same p id id' binding now later g.state).0 ∙ purges,
    )

pinned-key :
    (binding : String) (s : CompilerState)
    → (pinned binding s).retry_target_key ≡ some (key_of binding s)
unfolding pinned
pinned-key binding s = refl

stale-row :
    (p other : String) (stale : TargetKey) (f : Failure) (now_ns jitter : ℕ) (db : CompilerDb)
    (s : CompilerState) (key : TargetKey)
    → db.states p ≡ some s
    → s.retry_target_key ≡ some key
    → key_eq key stale ≡ false
    → let after = (finish_derived_failure p other stale f now_ns jitter db).1 in
      (after.states p ≡ some (record s { active_publish_generation_id = none }))
      × (after.profiles ≡ db.profiles)
unfolding finish_derived_failure failed_state
stale-row p other stale f now_ns jitter db s key row holds differs =
    (ground (arith, eq_refl p), ground arith)

-- A pin is taken away by the failure of another run, even of one that ended long ago: after it, a
-- claim with a fresh id starts a second publication of the generation that is being published.
stale_failure_unpins :
    (p id binding : String) (now later : ℕ) (db : CompilerDb) (r : DerivedRun) (key : TargetKey)
    (other id' : String) (stale : TargetKey) (f : Failure) (now_ns jitter : ℕ)
    → (claim_derived_run p id binding now db).0 ≡ claimed r key
    → r.kind ≡ publish
    → key_eq key stale ≡ false
    → let after =
        (finish_derived_failure p other stale f now_ns jitter
          (claim_derived_run p id binding now db).1).1 in
      exists_where (λ x. str_eq x.id id') after.derived_runs ≡ false
      → (second : DerivedRun) × ((claim_derived_run p id' binding later after).0
          ≡ claimed second key)
        × (second.kind ≡ publish)
        × (second.target_generation_id ≡ r.target_generation_id)
stale_failure_unpins p id binding now later db r key other id' stale f now_ns jitter h kind differs
      fresh =
    let g = claimed-Grant p id binding now db r key h in
    let (run, same) = Grant-returned p id binding now db r key h g in
    let (row, kept) =
      stale-row p other stale f now_ns jitter _ (pinned binding g.state) key
        (Grant-row p id binding now db g) (pinned-key binding g.state ∙ ap some same) differs in
    let second = returned p id' binding (unpinned binding g.state) later in
    (
      second,
      unpinned-again p id id' binding now later db _ g (kept ∙ Grant-profiles p id binding now db g)
            row fresh
          ∙ ap (claimed second) same,
      (again-same p id id' binding now later g.state).0 ∙ ap (λ x. x.kind) run ∙ kind,
      (again-same p id id' binding now later g.state).1 ∙ ap (λ x. x.target_generation_id) run,
    )
