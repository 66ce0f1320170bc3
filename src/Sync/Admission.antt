-- ===== src/Sync/Admission.antt =====
-- When ClaimRun starts an attempt, and what the attempt is given.
use gd_sync_harness.Prelude.{
  ℤ, ◌≢◌, is_zero, ℕ, String, ◌≡◌, refl, sym, ap, ◌∙◌, true, false, inl, inr, none, some, ◌++◌, ◌∷◌,
  [], str_eq, arith, eq_refl,
}
use gd_sync_harness.Db.Table.{exists_where}
use gd_sync_harness.Db.Schema.{Db, Profile, ProfileSyncState, SyncRun, ok, running}
use gd_sync_harness.Sync.{has_debt}
use gd_sync_harness.Sync.Intent.{ManualReconcileIntent, submit_manual_reconcile}
use gd_sync_harness.Sync.Claim.{
  claimed, refused, active_run, refusal, new_run, consume, take, claim_run, gate_closed, in_window,
}
use gd_sync_harness.Sync.Requests.{
  row_of, submitted, submit_manual-row, submit_manual-result, submit_manual-others,
}
use gd_sync_harness.Sync.{source_generation}
use gd_sync_harness.Sync.Claiming.{claim_run-cases}

-- A profile that may be claimed at `now`: alive, enabled, not being deleted, with no attempt of its
-- own, in debt, and behind neither the retry gate nor the debounce window.
pub record Admits (pr : Profile) (s : ProfileSyncState) (now : ℕ) : Type 0 where
  pub alive : pr.tombstoned ≡ false
  pub enabled : pr.enabled ≡ true
  pub kept : pr.deletion_requested_at ≡ none
  pub idle : s.current_run_id ≡ none
  pub owing : has_debt s ≡ true
  pub open_gate : gate_closed s now ≡ false
  pub settled : in_window s now ≡ false

refusal-none :
    (pr : Profile) (s : ProfileSyncState) (now : ℕ) → Admits pr s now → refusal pr s now ≡ none
unfolding refusal
refusal-none pr s now a = ground arith

Admits-free :
    (pr : Profile) (s : ProfileSyncState) (now : ℕ)
    → pr.tombstoned ≡ false
    → refusal pr s now ≡ none
    → Admits pr s now
unfolding refusal
Admits-free pr s now alive free = ground arith

claimed_injective : {a b : SyncRun} → claimed a ≡ claimed b → a ≡ b
claimed_injective h = ground arith

-- The row after the claim: the attempt is current, nothing else is asked for or known to have
-- succeeded, and the debounce window is over.
abbrev pub IsTaken : String → ProfileSyncState → ProfileSyncState → Type 0
IsTaken id s t =
    (t.current_run_id ≡ some id)
    × (t.desired_generation ≡ s.desired_generation)
    × (t.last_success_generation ≡ s.last_success_generation)
    × (t.reconcile_not_before_at ≡ none)
    × (t.reconcile_deadline_at ≡ none)

-- A manual request for the claimed generation is consumed, and one for another generation is kept.
abbrev pub IsConsumed : ProfileSyncState → ProfileSyncState → Type 0
IsConsumed s t =
    (s.pending_manual_generation ≡ some s.desired_generation
      → (t.pending_manual_generation ≡ none)
        × (t.pending_manual_allow_deletes ≡ none)
        × (t.pending_manual_bypass_debounce ≡ false))
    × ((g : ℕ)
        → s.pending_manual_generation ≡ some g
        → g ≢ s.desired_generation
        → (t.pending_manual_generation ≡ some g)
          × (t.pending_manual_allow_deletes ≡ s.pending_manual_allow_deletes)
          × (t.pending_manual_bypass_debounce ≡ s.pending_manual_bypass_debounce))

-- The attempt has the limit of a manual request for its generation that grants deletions, and the
-- limit of the profile where a manual request is for another generation.
abbrev pub IsBudget : Profile → ProfileSyncState → SyncRun → Type 0
IsBudget pr s r =
    ((n : ℤ)
      → s.pending_manual_generation ≡ some s.desired_generation
      → s.pending_manual_allow_deletes ≡ some n
      → is_zero n ≡ false
      → r.effective_max_delete ≡ n)
    × ((g : ℕ)
        → s.pending_manual_generation ≡ some g
        → g ≢ s.desired_generation
        → r.effective_max_delete ≡ pr.max_delete)

take-IsTaken :
    (id : String) (now : ℕ) (s : ProfileSyncState) → IsTaken id s (take id now (consume s))
unfolding take consume
take-IsTaken id now s = ground arith

take-IsConsumed :
    (id : String) (now : ℕ) (s : ProfileSyncState) → IsConsumed s (take id now (consume s))
unfolding take consume
take-IsConsumed id now s = (λ e. ground (arith, e), λ g e other. ground (arith, e, other))

new_run-IsBudget :
    (p id : String) (now : ℕ) (pr : Profile) (s : ProfileSyncState)
    → IsBudget pr s (new_run p id pr s now)
unfolding new_run
new_run-IsBudget p id now pr s =
    (λ n e allow positive. ground (arith, e, allow), λ g e other. ground (arith, e, other))

-- The attempt `r` was admitted at `now`, and these are the writes that came with it.
pub record Admission (p id : String) (now : ℕ) (db : Db) (r : SyncRun) : Type 0 where
  pub profile : Profile
  pub state : ProfileSyncState
  pub profile_row : db.profiles p ≡ some profile
  pub state_row : db.sync_state p ≡ some state
  pub admits : Admits profile state now
  pub named : r.id ≡ id
  pub owner : r.profile_id ≡ p
  pub is_running : r.status ≡ running
  pub target : r.target_generation ≡ state.desired_generation
  pub next : ProfileSyncState
  pub next_row : (claim_run p id now db).1.sync_state p ≡ some next
  pub taken : IsTaken id state next
  pub consumed : IsConsumed state next
  pub budget : IsBudget profile state r
  pub inserted : (claim_run p id now db).1.sync_runs ≡ db.sync_runs ++ r ∷ []

module _ (p id : String) (now : ℕ) (db : Db) where
  -- An attempt that ClaimRun returns was admitted: its profile is alive, enabled and not being
  -- deleted, has no current attempt, is in debt, and is behind neither gate nor window. The attempt
  -- has the desired generation for its target, is inserted as running under the given id, and is
  -- the profile's current attempt afterwards, with the debounce window over and neither the desired
  -- generation nor the last success changed. A manual request for that generation is consumed, and
  -- its deletions, if it grants any, are the limit of the attempt; a manual request for another
  -- generation is kept, and the limit is the profile's.
  pub claim_run_sound :
      (r : SyncRun) → (claim_run p id now db).0 ≡ claimed r → Admission p id now db r
  claim_run_sound r h = elim (claim_run-cases p id now db) [
    | inl (same, other) ↦ absurd (other r h)
    | inr (pr, s, st) ↦
        let e : new_run p id pr s now ≡ r = claimed_injective (sym (ap (λ c. c.0) st.result) ∙ h) in
        rw (← e) (record {
          profile = pr;
          state = s;
          profile_row = st.profile;
          state_row = st.row;
          admits = Admits-free pr s now st.alive st.free;
          named = unfold new_run in refl;
          owner = unfold new_run in refl;
          is_running = unfold new_run in refl;
          target = unfold new_run in refl;
          next = take id now (consume s);
          next_row = rw st.result (ground (arith, eq_refl p, st.row));
          taken = take-IsTaken id now s;
          consumed = take-IsConsumed id now s;
          budget = new_run-IsBudget p id now pr s;
          inserted = rw st.result refl;
        })
  ]

  -- ClaimRun starts an attempt for a profile that admits one, if the id is fresh.
  claim_run_complete :
      (pr : Profile) (s : ProfileSyncState)
      → db.profiles p ≡ some pr
      → db.sync_state p ≡ some s
      → Admits pr s now
      → exists_where (λ r. str_eq r.id id) db.sync_runs ≡ false
      → (claim_run p id now db).0 ≡ claimed (new_run p id pr s now)
  unfolding claim_run
  claim_run_complete pr s profile row a fresh = ground (arith, refusal-none pr s now a)

-- While an attempt is current, no claim starts another, whatever the id and the time.
claim_twice :
    (p id id' : String) (now now' : ℕ) (db : Db) (r : SyncRun)
    → (claim_run p id now db).0 ≡ claimed r
    → (claim_run p id' now' (claim_run p id now db).1).0 ≡ refused active_run
unfolding refusal take
claim_twice p id id' now now' db r h = elim (claim_run-cases p id now db) [
  | inl (same, other) ↦ absurd (other r h)
  | inr (pr, s, st) ↦
      rw st.result (unfold claim_run in ground (arith, eq_refl p, st.row, st.profile, st.alive))
]

submitted-Admits :
    (n now : ℕ) (i : ManualReconcileIntent) (pr : Profile) (s : ProfileSyncState)
    → pr.tombstoned ≡ false
    → pr.enabled ≡ true
    → pr.deletion_requested_at ≡ none
    → s.current_run_id ≡ none
    → Admits pr (submitted n i s) now
unfolding submitted gate_closed in_window
submitted-Admits n now i pr s alive enabled kept idle = ground arith

-- A manual request is claimable at once: whatever gate or window was closed before, the next claim
-- of an idle profile that is alive, enabled and not being deleted starts an attempt, under a fresh
-- id, at the generation that the request returned.
pub manual_claimable :
    (p id : String) (now : ℕ) (i : ManualReconcileIntent) (db : Db) (pr : Profile)
    → db.profiles p ≡ some pr
    → pr.tombstoned ≡ false
    → pr.enabled ≡ true
    → pr.deletion_requested_at ≡ none
    → (row_of p db).current_run_id ≡ none
    → exists_where (λ r. str_eq r.id id) db.sync_runs ≡ false
    → (r : SyncRun) × ((claim_run p id now (submit_manual_reconcile p i db).1).0 ≡ claimed r)
      × ((submit_manual_reconcile p i db).0 ≡ ok r.target_generation)
manual_claimable p id now i db pr profile alive enabled kept idle fresh =
    let s = submitted (source_generation p db) i (row_of p db) in
    let (same_profile, same_runs) = submit_manual-others p db i in
    (
      new_run p id pr s now,
      claim_run_complete p id now (submit_manual_reconcile p i db).1 pr s (same_profile ∙ profile)
          (submit_manual-row p db i)
          (submitted-Admits (source_generation p db) now i pr (row_of p db) alive enabled kept idle)
          (rw same_runs fresh),
      submit_manual-result p db i ∙ unfold new_run in refl,
    )
