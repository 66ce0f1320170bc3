-- ===== src/Worker/PrunePass.antt =====
-- One pass over the authorized prune of a profile: runAuthorizedPrune of internal/cli/pruneworker.go.
-- The answers of rclone are inputs.
pub mod Batches
pub mod Frozen
use Prim.Native.String.{String}
use gd_sync_harness.Prelude.{
  ℕ, zero, suc, ◌+◌, Bool, true, false, not, ◌&&◌, Option, none, some, List, [], ◌∷◌, ◌++◌, map,
  str_eq, elem, length, if◌then◌else◌,
}
use gd_sync_harness.Db.Table.{select_where}
use gd_sync_harness.Db.Schema.{Err, Result, ok, err, CommittedPolicy}
use gd_sync_harness.Db.Ledger.{
  Store, PruneRequest, PruneTarget, PruneState, TargetState, deleted, missing, stale,
}
use gd_sync_harness.Prune.{claim_prune, claim_retrying, is_ready}
use gd_sync_harness.Prune.Outcome.{commit_complete, set_retrying}
use gd_sync_harness.Prune.Batch.{mark_batch, is_terminal}
use gd_sync_harness.Paths.{codes_of, validate_prune_target, ancestors}

-- pruneDeleteBatchSize
abbrev pub prune_delete_batch_size : ℕ
prune_delete_batch_size = 512

-- validatePruneTargetPath, on the text of a row
abbrev pub is_target : String → Bool
is_target rel = validate_prune_target (codes_of rel)

abbrev pub all_targets : List String → Bool
all_targets [] = true
all_targets (rel ∷ paths) = is_target rel && all_targets paths

pub record PruneInputs : Type 0 where
  pub now : ℕ
  -- rclone lsf on a list of paths: those that exist; none is an error
  pub listing : List String → Option (List String)
  -- rclone delete on a list of paths: whether it succeeds
  pub deletes : List String → Bool
  -- the removal of the empty directories
  pub cleanup : Bool

pub data PruneOutcome : Type 0 where
  idle stale_request mismatch invalid_target list_failed delete_failed cleanup_failed done :
      PruneOutcome
  refused : Err → PruneOutcome

-- What a pass has done: the paths that it asked rclone to delete, the store, and its end.
pub record Pass : Type 0 where
  pub asked : List String
  pub store : Store
  pub outcome : PruneOutcome

abbrev pub ended : Store → PruneOutcome → Pass
ended st o = record { asked = []; store = st; outcome = o }

-- The part that a run may not enter: the policy does not match the request any more.
abbrev pub matches_policy : Option CommittedPolicy → PruneRequest → Bool
matches_policy none r = false
matches_policy (some c) r = str_eq c.policy_hash r.policy_hash && is_ready c.refresh_state

abbrev pub is_stale : PruneState → Bool
is_stale stale = true
is_stale _ = false

-- PruneTargets, and those that have no result yet
abbrev pub targets_of : String → Store → List PruneTarget
targets_of id st = select_where (λ t. str_eq t.request_id id) st.prune_targets

abbrev pub pending_paths : List PruneTarget → List String
pending_paths ts = map (λ t. t.rel_path) (select_where (λ t. not (is_terminal t.state)) ts)

abbrev pub existing_paths : List String → List String → List String
existing_paths found paths = select_where (λ x. elem x found) paths

abbrev pub missing_paths : List String → List String → List String
missing_paths found paths = select_where (λ x. not (elem x found)) paths

-- classifyPruneRemotePaths: no call for no path, and a refused path ends it.
unfoldable pub classify_remote : PruneInputs → List String → Option (List String × List String)
classify_remote i [] = some ([], [])
classify_remote i (x ∷ xs) =
    if all_targets (x ∷ xs)
    then (elim (i.listing (x ∷ xs)) [
      | none ↦ none
      | some found ↦ some (existing_paths found (x ∷ xs), missing_paths found (x ∷ xs))
    ])
    else none

-- existing[start:end], for the batches of the loop: at most `n` paths of the list, and the rest.
unfoldable pub split_batch : ℕ → List String → List String × List String
split_batch zero xs = ([], xs)
split_batch (suc n) [] = ([], [])
split_batch (suc n) (x ∷ xs) = let r = split_batch n xs in (x ∷ r.0, r.1)

-- The batches, on as much fuel as there are paths.
unfoldable pub batches : ℕ → ℕ → List String → List (List String)
unfolding split_batch
batches zero size xs = []
batches (suc fuel) size [] = []
batches (suc fuel) size (x ∷ xs) = let r = split_batch size (x ∷ xs) in r.0 ∷ batches fuel size r.1

-- From the end of the deletions on.
unfoldable pub clean_up : String → PruneInputs → Store → Pass
clean_up id i st =
    if i.cleanup
    then (elim (commit_complete id i.now st).0 [
      | ok u ↦ ended (commit_complete id i.now st).1 done
      | err e ↦ ended (commit_complete id i.now st).1 (refused e)
    ])
    else ended (set_retrying id "rmdir" i.now st) cleanup_failed

-- After one batch, whose outcome was committed or not: `rest` is what the loop does next.
unfoldable pub after_batch : List String → Result (Unit {0}) → Store → Pass → Pass
after_batch batch (err e) st rest = record { asked = batch; store = st; outcome = refused e }
after_batch batch (ok u) st rest = record {
  asked = batch ++ rest.asked;
  store = rest.store;
  outcome = rest.outcome;
}

-- The loop over the batches.
unfoldable pub delete_batches : String → PruneInputs → List (List String) → Store → Pass
unfolding clean_up after_batch
delete_batches id i [] st = clean_up id i st
delete_batches id i (batch ∷ more) st =
    let marked = mark_batch id batch deleted i.now st in
    let rest = delete_batches id i more marked.1 in
    if not (all_targets batch)
    then ended (set_retrying id "delete" i.now st) delete_failed
    else if not (i.deletes batch)
    then record {
      asked = batch;
      store = set_retrying id "delete" i.now st;
      outcome = delete_failed;
    }
    else after_batch batch marked.0 marked.1 rest

-- After the missing targets were marked.
unfoldable pub after_listing : String → PruneInputs → Result (Unit {0}) → List String → Store → Pass
unfolding delete_batches batches
after_listing id i (err e) existing st = ended st (refused e)
after_listing id i (ok u) existing st =
    delete_batches id i (batches (length existing) prune_delete_batch_size existing) st

-- From the listing on.
unfoldable pub delete_existing : String → PruneInputs → List String → Store → Pass
unfolding classify_remote after_listing
delete_existing id i pending st = elim (classify_remote i pending) [
  | none ↦ ended (set_retrying id "list" i.now st) list_failed
  | some r ↦
      let marked = mark_batch id r.1 missing i.now st in after_listing id i marked.0 r.0 marked.1
]

-- pruneTargetAncestorDirs refuses a target, or one of its ancestors.
abbrev pub ancestors_fine : List PruneTarget → Bool
ancestors_fine [] = true
ancestors_fine (t ∷ ts) =
    is_target t.rel_path
    && (elim (ancestors (length (codes_of t.rel_path) + 1) (codes_of t.rel_path)) [
      | none ↦ false
      | some ds ↦ true
    ])
    && ancestors_fine ts

-- From the claimed request on.
unfoldable pub run_prune : String → PruneInputs → PruneRequest → Store → Pass
unfolding delete_existing
run_prune p i r st =
    if is_stale r.state
    then ended st stale_request
    else if not (matches_policy (st.db.policy p) r)
    then ended st mismatch
    else if not (ancestors_fine (targets_of r.request_id st))
    then ended st invalid_target
    else delete_existing r.request_id i (pending_paths (targets_of r.request_id st)) st

-- The request of the pass: an interrupted one first.
unfoldable pub claim_any : String → ℕ → Store → Result (Option PruneRequest) × Store
claim_any p now st =
    let first = claim_retrying p now st in
    elim first.0 [ some r ↦ (ok (some r), first.1) | none ↦ claim_prune p now first.1 ]

-- runAuthorizedPrune
unfoldable pub prune_pass : String → PruneInputs → Store → Pass
unfolding claim_any run_prune
prune_pass p i st =
    let c = claim_any p i.now st in
    elim c.0 [
      | err e ↦ ended c.1 (refused e)
      | ok none ↦ ended c.1 idle
      | ok (some r) ↦ run_prune p i r c.1
    ]
