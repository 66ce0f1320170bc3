-- ===== src/Examples/Passes.antt =====
-- A pass over an authorized prune of one target.
use gd_sync_harness.Prelude.{◌≡◌, ◌≢◌, ◌≤◌, pos, true, some, [], ◌∷◌, All, refl, arith, length}
use gd_sync_harness.Db.Table.{select_where, update_where, delete_where, count_where, exists_where}
use gd_sync_harness.Db.Ledger.{Store, PruneRequest}
use gd_sync_harness.Prune.{
  new_request, new_target, authorize, oldest, claim_prune, claim_retrying, start_prune,
  find_request,
}
use gd_sync_harness.Prune.Outcome.{commit_complete, drop_deleted}
use gd_sync_harness.Prune.Batch.{mark_batch, mark_paths}
use gd_sync_harness.Sorted.{sorted_paths}
use gd_sync_harness.Db.Schema.{ok}
use gd_sync_harness.Prune.Unmanaged.{
  create_unmanaged, normalize_candidates, unmanaged, freeze_unmanaged, Frozen,
  create_unmanaged-Frozen,
}
use gd_sync_harness.Paths.{
  validate_canonical, is_derived_path, validate_prune_target, clean, split, join, clean_segments,
  clean_segment, in_order, dir, ancestors,
}
use gd_sync_harness.Worker.PrunePass.{
  PruneInputs, prune_pass, run_prune, claim_any, delete_existing, after_listing, delete_batches,
  after_batch, clean_up, classify_remote, batches, split_batch,
}
use gd_sync_harness.Worker.PrunePass.Batches.{flatten, batches_exact}
use gd_sync_harness.Worker.PrunePass.Frozen.{Grounds, prune_pass_frozen}
use gd_sync_harness.Examples.Data.{store_of}

abbrev request : PruneRequest
request = authorize (pos 10) 5 (new_request (λ paths. "d") "p" "q1" "h1" (pos 10) ("b.md" ∷ []) 3)

abbrev authorized : Store
authorized = store_of (request ∷ []) (new_target "q1" 3 "b.md" ∷ [])

abbrev working : PruneInputs
working = record {
  now = 9;
  listing = λ paths. some ("b.md" ∷ []);
  deletes = λ paths. true;
  cleanup = true;
}

one_asked : (prune_pass "p" working authorized).asked ≡ "b.md" ∷ []
unfolding prune_pass run_prune claim_any claim_retrying claim_prune start_prune oldest find_request
    select_where update_where delete_where count_where delete_existing after_listing delete_batches
    after_batch clean_up classify_remote batches split_batch commit_complete drop_deleted mark_batch
    mark_paths validate_prune_target clean split join clean_segments clean_segment in_order dir
    ancestors
one_asked = refl

prune_pass_frozen_example : Grounds "p" working authorized (prune_pass "p" working authorized)
prune_pass_frozen_example =
    prune_pass_frozen "p" working authorized (λ e. ground (arith, one_asked, e))

batches_exact_example :
    (flatten (batches 3 2 ("a" ∷ "b" ∷ "c" ∷ [])) ≡ "a" ∷ "b" ∷ "c" ∷ [])
    × All (λ b. (b ≢ []) × (length b ≤ 2)) (batches 3 2 ("a" ∷ "b" ∷ "c" ∷ []))
batches_exact_example = batches_exact 3 1 ("a" ∷ "b" ∷ "c" ∷ []) (omega arith)

abbrev unmanaged_request : PruneRequest
unmanaged_request = new_request (λ paths. "d") "p" "q2" "h1" (pos 10) ("old/c.md" ∷ []) 7

discovered :
    (create_unmanaged (λ paths. "d") "p" "q2" "h1" ("old/c.md" ∷ "a.md" ∷ []) 7 (store_of [] [])).0
    ≡ ok unmanaged_request
unfolding create_unmanaged normalize_candidates sorted_paths unmanaged freeze_unmanaged select_where
    exists_where validate_canonical is_derived_path clean split join clean_segments clean_segment
    in_order
discovered = refl

create_unmanaged-Frozen_example :
    Frozen "p" "q2" "h1" 7
      (store_of [] [])
      (create_unmanaged
        (λ paths. "d")
        "p"
        "q2"
        "h1"
        ("old/c.md" ∷ "a.md" ∷ [])
        7
        (store_of [] [])).1
      unmanaged_request
create_unmanaged-Frozen_example =
    create_unmanaged-Frozen (λ paths. "d") "p" "q2" "h1" ("old/c.md" ∷ "a.md" ∷ []) 7
      (store_of [] []) unmanaged_request discovered
