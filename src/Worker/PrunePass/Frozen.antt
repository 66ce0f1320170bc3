-- ===== src/Worker/PrunePass/Frozen.antt =====
-- What a pass over a prune may delete.
use gd_sync_harness.Prelude.{
  some_injective, String, ◌≡◌, ◌≢◌, ◌⊎◌, ◌∙◌, inl, inr, refl, sym, ap, subst, true, none, some,
  List, [], ◌∷◌, ◌++◌, arith, length, Bool-cases, Option-cases,
}
use mathlib.Core.List.{append_assoc}
use gd_sync_harness.Db.Schema.{Err, Result, ok, err}
use gd_sync_harness.Db.Ledger.{Store, PruneRequest, deleted, missing}
use gd_sync_harness.Prune.Batch.{mark_batch}
use gd_sync_harness.Worker.PrunePass.{
  PruneInputs, PruneOutcome, Pass, done, ended, refused, is_stale, ancestors_fine, after_batch,
  after_listing, all_targets, clean_up, delete_batches, delete_existing, run_prune, prune_pass,
  claim_any, classify_remote, existing_paths, missing_paths, pending_paths, targets_of,
  matches_policy, batches, prune_delete_batch_size,
}
use gd_sync_harness.Worker.PrunePass.Batches.{flatten, batches_exact}

Result-cases : {A : Type 0} (r : Result A) → ((e : Err) × (r ≡ err e)) ⊎ ((a : A) × (r ≡ ok a))
Result-cases (err e) = inl (e, refl)
Result-cases (ok a) = inr (a, refl)

-- The paths asked for are a first part of `all`, and all of them if the pass was done.
pub record Within (all : List String) (r : Pass) : Type 0 where
  pub rest : List String
  pub part : r.asked ++ rest ≡ all
  pub whole : r.outcome ≡ done → r.asked ≡ all

nothing-Within :
    (all : List String) (st : Store) (o : PruneOutcome) → o ≢ done → Within all (ended st o)
nothing-Within all st o h = record { rest = all; part = refl; whole = λ e. absurd (h e) }

clean_up-Within : (id : String) (i : PruneInputs) (st : Store) → Within [] (clean_up id i st)
unfolding clean_up
clean_up-Within id i st = record { rest = []; part = ground arith; whole = λ h. ground arith }

after_batch-Within :
    (b : List String) (bs : List (List String)) (o : Result (Unit {0})) (st : Store) (r : Pass)
    → Within (flatten bs) r
    → Within (b ++ flatten bs) (after_batch b o st r)
unfolding after_batch
after_batch-Within b bs (err e) st r w = record {
  rest = flatten bs;
  part = refl;
  whole = λ h. ground arith;
}
after_batch-Within b bs (ok u) st r w = record {
  rest = w.rest;
  part = append_assoc b r.asked w.rest ∙ ap (λ t. b ++ t) w.part;
  whole = λ h. ap (λ t. b ++ t) (w.whole h);
}

delete_batches-Within :
    (id : String) (i : PruneInputs) (bs : List (List String)) (st : Store)
    → Within (flatten bs) (delete_batches id i bs st)
unfolding delete_batches
delete_batches-Within id i [] st = clean_up-Within id i st
delete_batches-Within id i (b ∷ bs) st = elim (Bool-cases (all_targets b)) [
  | inr bad ↦ rw bad (nothing-Within (b ++ flatten bs) _ _ (λ h. cc))
  | inl fine ↦ elim (Bool-cases (i.deletes b)) [
    | inr failed ↦
        rw (fine, failed) (record { rest = flatten bs; part = refl; whole = λ h. ground arith })
    | inl gone ↦
        let marked = mark_batch id b deleted i.now st in
        rw (fine, gone)
          (after_batch-Within b bs marked.0 marked.1 (delete_batches id i bs marked.1)
            (delete_batches-Within id i bs marked.1))
  ]
]

after_listing-Within :
    (id : String) (i : PruneInputs) (o : Result (Unit {0})) (existing : List String) (st : Store)
    → Within existing (after_listing id i o existing st)
unfolding after_listing
after_listing-Within id i (err e) existing st = nothing-Within existing st (refused e) (λ h. cc)
after_listing-Within id i (ok u) existing st =
    let (whole, fine) = batches_exact (length existing) 511 existing (omega arith) in
    subst
      (λ x.
        Within x
          (delete_batches id i (batches (length existing) prune_delete_batch_size existing) st))
      whole
      (delete_batches-Within id i (batches (length existing) prune_delete_batch_size existing) st)

-- The listing, if there is one, splits the pending paths.
classified :
    (i : PruneInputs) (pending : List String) (r : List String × List String)
    → classify_remote i pending ≡ some r
    → (pending ≡ []) × (r ≡ ([], []))
      ⊎ ((found : List String) × (i.listing pending ≡ some found)
          × (r.0 ≡ existing_paths found pending)
          × (all_targets pending ≡ true))
unfolding classify_remote
classified i [] r h = inl (refl, sym (some_injective h))
classified i (x ∷ xs) r h = elim (Bool-cases (all_targets (x ∷ xs))) [
  | inr b ↦ absurd (ground arith)
  | inl b ↦ elim (Option-cases (i.listing (x ∷ xs))) [
    | inl n ↦ absurd (ground arith)
    | inr (found, k) ↦
        let same : (existing_paths found (x ∷ xs), missing_paths found (x ∷ xs)) ≡ r =
          some_injective (ground arith) in
        inr (found, k, ap (λ v. v.0) (sym same), b)
  ]
]

-- What a pass that asked for a deletion went by.
pub record Grounds (p : String) (i : PruneInputs) (st : Store) (r : Pass) : Type 0 where
  pub request : PruneRequest
  pub claimed : (claim_any p i.now st).0 ≡ ok (some request)
  pub matching : matches_policy ((claim_any p i.now st).1.db.policy p) request ≡ true
  pub found : List String
  pub listed :
      i.listing (pending_paths (targets_of request.request_id (claim_any p i.now st).1))
      ≡ some found
  pub checked :
      all_targets (pending_paths (targets_of request.request_id (claim_any p i.now st).1)) ≡ true
  pub within :
      Within
        (existing_paths found
          (pending_paths (targets_of request.request_id (claim_any p i.now st).1)))
        r

append_empty : (xs ys : List String) → xs ++ ys ≡ [] → xs ≡ []
append_empty [] ys h = refl
append_empty (x ∷ xs) ys h = absurd (ground arith)

listed-pass :
    (id : String) (i : PruneInputs) (pending : List String) (st : Store)
    (r : List String × List String)
    → classify_remote i pending ≡ some r
    → delete_existing id i pending st
      ≡ after_listing id i
          (mark_batch id r.1 missing i.now st).0
          r.0
          (mark_batch id r.1 missing i.now st).1
unfolding delete_existing
listed-pass id i pending st r k = rw (k, delete_existing) refl

existing-Within :
    (id : String) (i : PruneInputs) (pending : List String) (st : Store)
    → (delete_existing id i pending st).asked ≢ []
    → (found : List String) × (i.listing pending ≡ some found)
      × (all_targets pending ≡ true)
      × Within (existing_paths found pending) (delete_existing id i pending st)
existing-Within id i pending st some_asked = elim (Option-cases (classify_remote i pending)) [
  | inl n ↦ absurd (some_asked (unfold delete_existing in ground arith))
  | inr (r, k) ↦
      let marked = mark_batch id r.1 missing i.now st in
      let w = after_listing-Within id i marked.0 r.0 marked.1 in
      let same = listed-pass id i pending st r k in
      elim (classified i pending r k) [
        | inl (none_pending, empty) ↦ absurd (
            some_asked
              (ap (λ v. v.asked) same ∙ append_empty _ w.rest (w.part ∙ ap (λ v. v.0) empty)))
        | inr (found, listed, split, checked) ↦ (
          found,
          listed,
          checked,
          rw same (subst (λ x. Within x (after_listing id i marked.0 r.0 marked.1)) split w),
        )
      ]
]

ran :
    (p : String) (i : PruneInputs) (st : Store) (r : PruneRequest)
    → (claim_any p i.now st).0 ≡ ok (some r)
    → prune_pass p i st ≡ run_prune p i r (claim_any p i.now st).1
unfolding prune_pass
ran p i st r h = rw (h, prune_pass) refl

run_existing :
    (p : String) (i : PruneInputs) (st : Store) (r : PruneRequest)
    → (run_prune p i r st).asked ≢ []
    → (matches_policy (st.db.policy p) r ≡ true)
      × (run_prune p i r st
          ≡ delete_existing r.request_id i (pending_paths (targets_of r.request_id st)) st)
unfolding run_prune
run_existing p i st r h = elim (Bool-cases (is_stale r.state)) [
  | inl b ↦ absurd (h (rw b refl))
  | inr b ↦ elim (Bool-cases (matches_policy (st.db.policy p) r)) [
    | inr c ↦ absurd (h (rw (b, c) refl))
    | inl c ↦ elim (Bool-cases (ancestors_fine (targets_of r.request_id st))) [
      | inr d ↦ absurd (h (rw (b, c, d) refl))
      | inl d ↦ (c, rw (b, c, d) refl)
    ]
  ]
]

claim_cases :
    (p : String) (i : PruneInputs) (st : Store)
    → (prune_pass p i st).asked ≢ []
    → (r : PruneRequest) × ((claim_any p i.now st).0 ≡ ok (some r))
unfolding prune_pass
claim_cases p i st h = elim (Result-cases (claim_any p i.now st).0) [
  | inl (e, k) ↦ absurd (h (rw (k, prune_pass) refl))
  | inr (none, k) ↦ absurd (h (rw (k, prune_pass) refl))
  | inr (some r, k) ↦ (r, k)
]

-- A pass deletes only what an authorized request froze: where it asks rclone to delete any path, it
-- has claimed a request whose policy hash is the committed one, with a refresh that is ready, and the
-- listing of the request's targets without a result has succeeded. What it asks for is a first part of
-- those of these targets that exist on the remote, in their order, and all of them if the pass is done.
pub prune_pass_frozen :
    (p : String) (i : PruneInputs) (st : Store)
    → (prune_pass p i st).asked ≢ []
    → Grounds p i st (prune_pass p i st)
prune_pass_frozen p i st h =
    let (r, k) = claim_cases p i st h in
    let st1 = (claim_any p i.now st).1 in
    let pending = pending_paths (targets_of r.request_id st1) in
    let start = ran p i st r k in
    let (matching, same) = run_existing p i st1 r (subst (λ v. v.asked ≢ []) start h) in
    let (found, listed, checked, within) =
      existing-Within r.request_id i pending st1 (subst (λ v. v.asked ≢ []) (start ∙ same) h) in
    record {
      request = r;
      claimed = k;
      matching = matching;
      found = found;
      listed = listed;
      checked = checked;
      within = subst (Within (existing_paths found pending)) (sym (start ∙ same)) within;
    }
