-- ===== src/Derived/Gate.antt =====
-- What a failed derived run closes, and what opens it.
use gd_sync_harness.Prelude.{
  ℕ, ◌+◌, String, ◌≡◌, ◌≢◌, refl, ap, ◌∙◌, subst, true, false, Option, some, none, str_eq, ltb,
  ◌==◌, ◌&&◌, arith, eq_refl, eq_iff, Option-cases, inl, inr,
}
use gd_sync_harness.Db.Table.{exists_where}
use gd_sync_harness.Db.Schema.{terminal, retryable}
use gd_sync_harness.Retry.{retry_backoff}
use gd_sync_harness.Sync.Commit.{stamp}
use gd_sync_harness.Derived.{
  CompilerDb, CompilerState, DerivedRun, TargetKey, Built, Failure, publish, generation,
  finish_compiler_run, finish_derived_failure, failed_state, charge_target, desire_generation, Mode,
  absent, key_eq, mode_eq,
}
use gd_sync_harness.Derived.Claim.{
  claimed, nothing, is_refused, is_current, is_gated, returned, pinned, key_of, claim_derived_run,
}
use gd_sync_harness.Derived.Claiming.{
  Grant, Grant-result, Grant-row, Grant-profiles, claimed-Grant, returned-publish,
}
use gd_sync_harness.Derived.Serving.{refused-nothing, Grant-returned}

module _ (p id binding : String) (now : ℕ) (db : CompilerDb) (f : Failure) (now_ns jitter : ℕ) where
  abbrev failed_run : TargetKey → CompilerDb
  failed_run key =
      (finish_derived_failure p id key f now_ns jitter (claim_derived_run p id binding now db).1).1

  pub failed-row :
      (g : Grant p id binding now db)
      → (failed_run (key_of binding g.state)).states p
        ≡ some (failed_state (key_of binding g.state) f now_ns jitter (pinned binding g.state))
  unfolding finish_derived_failure
  failed-row g = ground (arith, eq_refl p, Grant-row p id binding now db g)

  pub failed-profiles :
      (g : Grant p id binding now db) → (failed_run (key_of binding g.state)).profiles ≡ db.profiles
  unfolding finish_derived_failure
  failed-profiles g =
      ground (arith, Grant-row p id binding now db g, Grant-profiles p id binding now db g)

pub key_eq_refl : (k : TargetKey) → key_eq k k ≡ true
key_eq_refl k = keys k.mode k.generation_id k.revision k.binding
  where
    keys :
        (m : Mode) (g : String) (n : ℕ) (b : String)
        → (mode_eq m m && str_eq g g && n == n && str_eq b b) ≡ true
    keys generation g n b = ground (arith, eq_refl g, eq_refl b)
    keys absent g n b = ground (arith, eq_refl g, eq_refl b)

-- The row after the claimed run has failed under its own key.
abbrev charged : String → Failure → ℕ → ℕ → CompilerState → CompilerState
charged binding f now_ns jitter s =
    charge_target (key_of binding s) f now_ns jitter
      (record (pinned binding s) { active_publish_generation_id = none })

failed-own :
    (binding : String) (f : Failure) (now_ns jitter : ℕ) (s : CompilerState)
    → failed_state (key_of binding s) f now_ns jitter (pinned binding s)
      ≡ charged binding f now_ns jitter s
unfolding failed_state pinned
failed-own binding f now_ns jitter s = rw (key_eq_refl (key_of binding s)) refl

gated-refused :
    (binding : String) (now : ℕ) (s : CompilerState)
    → is_gated binding now s ≡ true
    → is_refused binding now s ≡ true
unfolding is_refused
gated-refused binding now s h = ground arith

-- The gate is closed by a terminal failure, and until the time of the next attempt.
terminal-gated :
    (binding : String) (f : Failure) (now_ns jitter later : ℕ) (s : CompilerState)
    → f.classification ≡ terminal
    → is_gated binding later (charged binding f now_ns jitter s) ≡ true
unfolding is_gated charge_target pinned
terminal-gated binding f now_ns jitter later s h = ground (arith, key_eq_refl (key_of binding s))

retryable-gated :
    (binding : String) (f : Failure) (now_ns jitter later : ℕ) (s : CompilerState)
    → f.classification ≡ retryable
    → ltb later (stamp (now_ns + retry_backoff (s.consecutive_failures + 1) jitter)) ≡ true
    → is_gated binding later (charged binding f now_ns jitter s) ≡ true
unfolding is_gated charge_target pinned
retryable-gated binding f now_ns jitter later s h early =
    ground (arith, key_eq_refl (key_of binding s))

same_row : {s t : CompilerState} {o : Option CompilerState} → o ≡ some s → o ≡ some t → s ≡ t
same_row h k = ground arith

-- A gate whose key is of another target is open.
other-open :
    (key : TargetKey) (binding : String) (later : ℕ) (t : CompilerState)
    → t.retry_target_key ≡ some key
    → key_eq key (key_of binding t) ≡ false
    → is_gated binding later t ≡ false
unfolding is_gated
other-open key binding later t h k = rw h (ground arith)

charged-key :
    (binding : String) (f : Failure) (now_ns jitter : ℕ) (s : CompilerState)
    → (charged binding f now_ns jitter s).retry_target_key ≡ some (key_of binding s)
unfolding charge_target pinned
charged-key binding f now_ns jitter s = refl

-- A failure gates its target. After a terminal failure of a derived run, no claim for the same
-- binding starts a run, whatever the id and the time; after a retryable failure none does before the
-- exponential back-off, for one more consecutive failure than before, has passed. It gates that
-- target only: in no row that keeps the retry key of the failure is a claim gated, under whatever
-- binding, for a target with another key.
pub failure_gates :
    (p id binding : String) (now : ℕ) (db : CompilerDb) (f : Failure) (now_ns jitter : ℕ)
    (r : DerivedRun) (key : TargetKey) (s : CompilerState) (id' : String) (later : ℕ)
    → (claim_derived_run p id binding now db).0 ≡ claimed r key
    → db.states p ≡ some s
    → let after =
        (finish_derived_failure p id key f now_ns jitter
          (claim_derived_run p id binding now db).1).1 in
      (f.classification ≡ terminal → (claim_derived_run p id' binding later after).0 ≡ nothing)
      × (f.classification ≡ retryable
          → ltb later (stamp (now_ns + retry_backoff (s.consecutive_failures + 1) jitter)) ≡ true
          → (claim_derived_run p id' binding later after).0 ≡ nothing)
      × (u : CompilerState) × (after.states p ≡ some u)
      × ((t : CompilerState) (other : String)
          → t.retry_target_key ≡ u.retry_target_key
          → key_eq key (key_of other t) ≡ false
          → is_gated other later t ≡ false)
failure_gates p id binding now db f now_ns jitter r key s id' later h row =
    let g = claimed-Grant p id binding now db r key h in
    let same = (Grant-returned p id binding now db r key h g).1 in
    let one = same_row row g.state_row in
    let t = charged binding f now_ns jitter g.state in
    let failed : (failed_run p id binding now db f now_ns jitter key).states p ≡ some t =
      subst (λ k. (failed_run p id binding now db f now_ns jitter k).states p ≡ some t) same
        (failed-row p id binding now db f now_ns jitter g
          ∙ ap some (failed-own binding f now_ns jitter g.state)) in
    (
      λ c.
          refused-nothing p id' binding later _ t failed (
            gated-refused binding later t (terminal-gated binding f now_ns jitter later g.state c)),
      λ c early. refused-nothing p id' binding later _ t failed (
          gated-refused binding later t
            (retryable-gated binding f now_ns jitter later g.state c (rw (← one) early))),
      t,
      failed,
      λ x other kept differs.
          other-open key other later x
            (kept ∙ charged-key binding f now_ns jitter g.state ∙ ap some same) differs,
    )

-- A new desire is wanted, whatever failed before it.
opened-wanted :
    (binding : String) (f : Failure) (now_ns jitter built later : ℕ) (b : Built) (s : CompilerState)
    → b.generation_id ≢ ""
    → s.remote_published_generation_id ≢ some b.generation_id
    → is_refused binding later
        (desire_generation b binding built (charged binding f now_ns jitter s))
      ≡ false
unfolding is_refused is_gated is_current desire_generation charge_target pinned
opened-wanted binding f now_ns jitter built later b s named other =
    elim (Option-cases s.remote_published_generation_id) [
      | inl e ↦ ground (arith, eq_iff "" b.generation_id, eq_iff b.generation_id "")
      | inr (g, e) ↦ ground (arith, eq_iff g b.generation_id, eq_iff b.generation_id "")
    ]

-- The gate of one target is none for the next: whatever failure a derived run ended with, after a
-- compilation with another generation than the remote holds the next claim with a fresh id starts
-- its publication at once.
pub new_desire_opens :
    (p id binding : String) (now : ℕ) (db : CompilerDb) (f : Failure) (now_ns jitter : ℕ)
    (r : DerivedRun) (key : TargetKey) (s : CompilerState) (run_id id' : String) (built later : ℕ)
    (b : Built)
    → (claim_derived_run p id binding now db).0 ≡ claimed r key
    → db.states p ≡ some s
    → b.generation_id ≢ ""
    → s.remote_published_generation_id ≢ some b.generation_id
    → let failed =
        (finish_derived_failure p id key f now_ns jitter
          (claim_derived_run p id binding now db).1).1 in
      let after = finish_compiler_run p run_id b binding built failed in
      exists_where (λ x. str_eq x.id id') after.derived_runs ≡ false
      → (next : DerivedRun) × (k : TargetKey) × ((claim_derived_run p id' binding later after).0
          ≡ claimed next k)
        × (next.kind ≡ publish)
        × (next.target_generation_id ≡ some b.generation_id)
unfolding finish_compiler_run desire_generation
new_desire_opens p id binding now db f now_ns jitter r key s run_id id' built later b h row named
      other fresh =
    let g = claimed-Grant p id binding now db r key h in
    let same = (Grant-returned p id binding now db r key h g).1 in
    let one = same_row row g.state_row in
    let t = charged binding f now_ns jitter g.state in
    let failed : (failed_run p id binding now db f now_ns jitter key).states p ≡ some t =
      subst (λ k. (failed_run p id binding now db f now_ns jitter k).states p ≡ some t) same
        (failed-row p id binding now db f now_ns jitter g
          ∙ ap some (failed-own binding f now_ns jitter g.state)) in
    let kept : (failed_run p id binding now db f now_ns jitter key).profiles ≡ db.profiles =
      subst (λ k. (failed_run p id binding now db f now_ns jitter k).profiles ≡ db.profiles) same
        (failed-profiles p id binding now db f now_ns jitter g) in
    let u = desire_generation b binding built t in
    let grant : Grant p id' binding later _ = record {
      profile = g.profile;
      state = u;
      profile_row = ap (λ x. x p) kept ∙ g.profile_row;
      active = g.active;
      state_row = ground (arith, eq_refl p, failed);
      wanted =
          opened-wanted binding f now_ns jitter built later b g.state named
            (subst (λ x. x.remote_published_generation_id ≢ some b.generation_id) one other);
      fresh = fresh;
    } in
    let runs = returned-publish p id' binding b.generation_id later u refl refl named in
    (
      returned p id' binding u later,
      key_of binding u,
      Grant-result p id' binding later _ grant,
      runs.0,
      runs.1,
    )
