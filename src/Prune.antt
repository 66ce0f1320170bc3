-- ===== src/Prune.antt =====
-- internal/state/prune.go: a request to delete the suppressed objects of a profile from its remote,
-- from its preview to its end. A request freezes its targets; the digest (SHA-256) is a parameter.
pub mod Outcome
pub mod Batch
pub mod Again
pub mod Preview
pub mod Limits
pub mod Starts
pub mod Ends
pub mod Orders
pub mod Unmanaged
use Prim.Native.String.{compare}
use text.Mathlib.Text.{is_lt}
use mathlib.Core.Option
use gd_sync_harness.Prelude.{
  ℕ, ℤ, suc, ◌+◌, String, Bool, true, false, not, ◌&&◌, ◌||◌, Option, none, some, List, [], ◌∷◌,
  ◌++◌, map, length, str_eq, ltb, is_pos, lt_count, if◌then◌else◌,
}
use gd_sync_harness.Db.Table.{delete_where, update_where, select_where, exists_where, count_where}
use gd_sync_harness.Db.Schema.{
  CommittedPolicy, RefreshState, Result, ok, err, not_found, constraint, refresh_not_ready,
  over_limit,
}
use gd_sync_harness.Db.Ledger.{
  Store, ManifestEntry, PruneRequest, PruneTarget, PruneState, TargetState, previewed,
  approval_required, running, retrying, completed, stale, superseded, failed, deleted, missing,
  is_suppressed,
}
use gd_sync_harness.Manifest.{entry_at, in_state}

-- ORDER BY rel_path
unfoldable pub insert_path : String → List String → List String
insert_path x [] = x ∷ []
insert_path x (y ∷ ys) =
    let rest = insert_path x ys in if is_lt (compare y x) then y ∷ rest else x ∷ y ∷ ys

unfoldable pub sort_paths : List String → List String
unfolding insert_path
sort_paths [] = []
sort_paths (x ∷ xs) = insert_path x (sort_paths xs)

abbrev pub is_ready : RefreshState → Bool
is_ready RefreshState.ready = true
is_ready _ = false

-- The test of the policy row that every prune operation makes.
abbrev pub refresh_is_ready : CommittedPolicy → Bool
refresh_is_ready c =
    is_ready c.refresh_state
    && (elim c.refreshed_policy_hash [ none ↦ false | some h ↦ str_eq h c.policy_hash ])

abbrev pub suppressed_by : String → String → ManifestEntry → Bool
suppressed_by p policy_hash e =
    in_state p is_suppressed e
    && (elim e.suppressed_policy_hash [ none ↦ false | some h ↦ str_eq h policy_hash ])

-- The execution set that a preview freezes.
unfoldable pub candidates : String → String → List ManifestEntry → List String
unfolding sort_paths
candidates p policy_hash es =
    sort_paths (map (λ e. e.rel_path) (select_where (suppressed_by p policy_hash) es))

-- state IN (previewed, approval_required)
abbrev pub is_preview : PruneState → Bool
is_preview previewed = true
is_preview approval_required = true
is_preview _ = false

abbrev pub is_pending : PruneState → Bool
is_pending PruneState.pending = true
is_pending _ = false

abbrev pub is_owned : PruneState → Bool
is_owned running = true
is_owned retrying = true
is_owned _ = false

abbrev pub is_request : String → PruneRequest → Bool
is_request id r = str_eq r.request_id id

abbrev pub request_in : String → (PruneState → Bool) → PruneRequest → Bool
request_in p test r = str_eq r.profile_id p && test r.state

abbrev pub set_state : PruneState → ℕ → PruneRequest → PruneRequest
set_state state now r = record r { state = state; updated_at = now }

abbrev pub new_target : String → ℕ → String → PruneTarget
new_target id now path = record {
  request_id = id;
  rel_path = path;
  state = TargetState.pending;
  attempt_count = 0;
  last_error = none;
  updated_at = now;
}

abbrev pub new_request :
    (List String → String) → String → String → String → ℤ → List String → ℕ → PruneRequest
new_request digest p id policy_hash max_delete paths now = record {
  request_id = id;
  profile_id = p;
  policy_hash = policy_hash;
  state = previewed;
  candidate_count = length paths;
  candidate_digest = digest paths;
  default_max_delete = max_delete;
  authorized_limit = none;
  deleted_count = 0;
  missing_count = 0;
  last_error = none;
  created_at = now;
  updated_at = now;
  completed_at = none;
}

-- The writes of CreatePrunePreview: older previews are superseded, and the request and its targets
-- are inserted.
unfoldable pub preview_writes : PruneRequest → List String → ℕ → Store → Store
preview_writes r paths now st = record st {
  prune_requests =
      update_where (request_in r.profile_id is_preview) (set_state superseded now) st.prune_requests
      ++ r ∷ [];
  prune_targets = st.prune_targets ++ map (new_target r.request_id now) paths;
}

-- CreatePrunePreview
unfoldable pub create_preview :
    (List String → String) → String → String → ℕ → Store → Result PruneRequest × Store
unfolding candidates preview_writes
create_preview digest p id now st = elim (st.db.policy p) [
  | none ↦ (err not_found, st)
  | some c ↦
      if refresh_is_ready c
      then (elim (st.db.profiles p) [
        | none ↦ (err not_found, st)
        | some pr ↦
            let paths = candidates p c.policy_hash st.manifest in
            let r = new_request digest p id c.policy_hash pr.max_delete paths now in
            if exists_where (is_request id) st.prune_requests
            then (err constraint, st)
            else (ok r, preview_writes r paths now st)
      ])
      else (err refresh_not_ready, st)
]

-- GetPruneRequest
unfoldable pub find_request : (PruneRequest → Bool) → List PruneRequest → Option PruneRequest
find_request test [] = none
find_request test (r ∷ rs) = if test r then some r else find_request test rs

-- One step of ORDER BY created_at LIMIT 1.
abbrev pub older : PruneRequest → Option PruneRequest → Option PruneRequest
older r none = some r
older r (some s) = some (if ltb s.created_at r.created_at then s else r)

unfoldable pub oldest : (PruneRequest → Bool) → List PruneRequest → Option PruneRequest
oldest test [] = none
oldest test (r ∷ rs) = let rest = oldest test rs in if test r then older r rest else rest

-- The limit that AuthorizePrune applies.
abbrev pub effective_limit : ℤ → PruneRequest → ℤ
effective_limit allow r = if is_pos allow then allow else r.default_max_delete

abbrev pub authorize : ℤ → ℕ → PruneRequest → PruneRequest
authorize limit now r = record r {
  authorized_limit = some limit;
  state = PruneState.pending;
  updated_at = now;
}

-- AuthorizePrune
unfoldable pub authorize_prune : String → ℤ → ℕ → Store → Result PruneRequest × Store
unfolding find_request
authorize_prune id allow now st = elim (find_request (is_request id) st.prune_requests) [
  | none ↦ (err not_found, st)
  | some r ↦
      let limit = effective_limit allow r in
      if lt_count limit r.candidate_count then (err over_limit, st) else (
        ok (authorize limit now r),
        record st {
          prune_requests = update_where (is_request id) (authorize limit now) st.prune_requests;
        },
      )
]

abbrev pub set_request : String → (PruneRequest → PruneRequest) → Store → Store
set_request id f st = record st {
  prune_requests = update_where (is_request id) f st.prune_requests;
}

abbrev pub is_missing : TargetState → Bool
is_missing missing = true
is_missing _ = false

abbrev pub is_deleted : TargetState → Bool
is_deleted deleted = true
is_deleted _ = false

-- The claim of a fresh request: it runs, and its missing targets are pending again.
unfoldable pub start_prune : String → ℕ → Store → Store
start_prune id now st =
    let st1 = set_request id (set_state running now) st in
    record st1 {
      prune_targets =
          update_where (λ t. str_eq t.request_id id && is_missing t.state)
            (λ t. record t { state = TargetState.pending }) st1.prune_targets;
    }

-- ClaimPrune
unfoldable pub claim_prune : String → ℕ → Store → Result (Option PruneRequest) × Store
unfolding oldest start_prune
claim_prune p now st = elim (oldest (request_in p is_pending) st.prune_requests) [
  | none ↦ (ok none, st)
  | some r ↦ elim (st.db.policy p) [
    | none ↦ (err not_found, st)
    | some c ↦
        if str_eq c.policy_hash r.policy_hash && refresh_is_ready c
        then (ok (some (set_state running now r)), start_prune r.request_id now st)
        else (
          ok (some (record r { state = stale })),
          set_request r.request_id (set_state stale now) st,
        )
  ]
]

-- ClaimRetryingPrune
unfoldable pub claim_retrying : String → ℕ → Store → Option PruneRequest × Store
unfolding oldest
claim_retrying p now st = elim (oldest (request_in p is_owned) st.prune_requests) [
  | none ↦ (none, st)
  | some r ↦ (some (set_state running now r), set_request r.request_id (set_state running now) st)
]
