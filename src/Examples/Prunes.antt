-- ===== src/Examples/Prunes.antt =====
-- Prune requests and policy commits, on one profile.
use gd_sync_harness.Prelude.{◌⊎◌, inr, ◌≡◌, ℕ, String, List, pos, some, [], ◌∷◌, refl}
use gd_sync_harness.Db.Table.{select_where, update_where, exists_where}
use gd_sync_harness.Db.Schema.{ok}
use gd_sync_harness.Db.Ledger.{Store, PruneRequest, PruneTarget, PruneState, TargetState}
use gd_sync_harness.Prune.{
  create_preview, authorize_prune, claim_prune, claim_retrying, find_request, is_request,
  new_target, new_request, candidates, oldest, authorize, set_state,
}
use gd_sync_harness.Prune.Orders.{
  Reach, start, next, apply, preview, approve, IsWithin, IsCommitted, claimed_prune_authorized,
}
use gd_sync_harness.Policy.{next_generation}
use gd_sync_harness.Examples.Data.{store_of, source_row, settled, policy_row}

abbrev digest_of : List String → String
digest_of paths = "d"

abbrev fresh : Store
fresh = store_of [] []

abbrev request : PruneRequest
request = new_request digest_of "p" "q1" "h1" (pos 10) ("b.md" ∷ []) 3

previewed_ok : (create_preview digest_of "p" "q1" 3 fresh).0 ≡ ok request
unfolding create_preview candidates select_where exists_where
previewed_ok = refl

abbrev target : TargetState → PruneTarget
target state = record (new_target "q1" 3 "b.md") { state = state }

abbrev open_store : Store
open_store = store_of (request ∷ []) (target TargetState.pending ∷ [])

abbrev deleted_store : Store
deleted_store = store_of (request ∷ []) (target TargetState.deleted ∷ [])

found : find_request (is_request "q1") deleted_store.prune_requests ≡ some request
unfolding find_request
found = refl

-- A preview, its approval, and the claim that starts it.
abbrev approved : Store
approved = apply digest_of (approve "q1" (pos 0) 5) (apply digest_of (preview "p" "q1" 3) fresh)

two_operations : Reach digest_of approved
two_operations = next (approve "q1" (pos 0) 5) (next (preview "p" "q1" 3) (start fresh refl) tt) tt

abbrev started : PruneRequest
started = set_state PruneState.running 6 (authorize (pos 10) 5 request)

claim_ok : (claim_prune "p" 6 approved).0 ≡ ok (some started)
unfolding apply create_preview authorize_prune claim_prune find_request oldest candidates
    select_where update_where exists_where
claim_ok = refl

claimed_prune_authorized_example :
    IsWithin started
    × (((claim_retrying "p" 6 approved).0 ≡ some started) ⊎ IsCommitted "p" started approved)
claimed_prune_authorized_example =
    claimed_prune_authorized digest_of "p" 6 started two_operations (inr (claim_ok, refl))

abbrev generation : ℕ
generation = next_generation (some policy_row) source_row settled
