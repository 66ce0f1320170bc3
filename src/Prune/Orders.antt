-- ===== src/Prune/Orders.antt =====
-- The operations on prune requests as the steps of one machine, in any order.
use gd_sync_harness.Prelude.{
  ℕ, ℤ, String, ◌≡◌, ◌≢◌, refl, ap, sym, subst, All-imp, some_injective, Bool, ◌⊎◌, true, false,
  ◌&&◌, none, some, inl, inr, List, [], lt_count, str_eq, arith, eq_iff, Bool-cases, Option-cases,
}
use gd_sync_harness.Db.Table.{count_where, delete_where, exists_where}
use gd_sync_harness.Db.Table.Counts.{count-delete_le}
use gd_sync_harness.Db.Table.Laws.{All-mem, All-delete_where}
use gd_sync_harness.Db.Schema.{Db, CommittedPolicy, Err, Result, ok, err}
use gd_sync_harness.Db.Ledger.{Store, ManifestEntry, PruneRequest, PruneState, TargetState, running}
use gd_sync_harness.Prune.{
  oldest, is_request, request_in, is_pending, is_owned, set_state, create_preview, authorize_prune,
  claim_prune, claim_retrying, refresh_is_ready,
}
use gd_sync_harness.Lifecycle.{forget_profile}
use gd_sync_harness.Policy.{commit_ignore_snapshot, commit_writes, outdated}
use gd_sync_harness.Machine.Policies.{commit-cases}
use gd_sync_harness.Prune.Outcome.{mark_target_result, commit_complete, set_retrying, set_failed}
use gd_sync_harness.Prune.Batch.{mark_batch}
use gd_sync_harness.Prune.Limits.{Owned, Authorized, Sound, oldest-mem, plain-Sound}
use gd_sync_harness.Prune.Starts.{
  owned-executing, pending-executing, authorize-Sound, claim-Sound, reclaim-Sound,
  preview_all-Sound,
}
use gd_sync_harness.Prune.Unmanaged.{create_unmanaged, create_unmanaged-Sound}
use gd_sync_harness.Prune.Ends.{outcome-Sound, finish-Sound, batch-Sound, retry-Sound}

pub data Op : Type 0 where
  others : Db → List ManifestEntry → Op
  commit_policy : String → String → Bool → ℕ → Op
  forget : String → Op
  preview : String → String → ℕ → Op
  discover : String → String → String → List String → ℕ → Op
  approve : String → ℤ → ℕ → Op
  claim reclaim : String → ℕ → Op
  outcome : String → String → TargetState → String → ℕ → Op
  batch : String → List String → TargetState → ℕ → Op
  finish : String → ℕ → Op
  retry abandon : String → String → ℕ → Op

-- The rows that the deletes of ForgetProfile take along by their foreign keys.
unfoldable pub forget_requests : String → Store → Store
forget_requests p st = record st {
  prune_targets =
      delete_where
        (λ t.
          exists_where (λ r. is_request t.request_id r && str_eq r.profile_id p) st.prune_requests)
        st.prune_targets;
  prune_requests = delete_where (λ r. str_eq r.profile_id p) st.prune_requests;
}

-- ForgetProfile on the requests and targets of the profile.
unfoldable pub forget_profile_requests : String → Store → Store
unfolding forget_requests
forget_profile_requests p st = elim (forget_profile p st.db).0 [
  | err e ↦ st
  | ok done ↦ forget_requests p st
]

module _ (digest : List String → String) where
  -- `others` stands for any change of the other tables and of the ledger, by whomever.
  unfoldable pub apply : Op → Store → Store
  apply (others db ledger) st = record st { db = db; manifest = ledger }
  apply (commit_policy p h accept now) st = (commit_ignore_snapshot p h accept now st).1
  apply (forget p) st = forget_profile_requests p st
  apply (preview p id now) st = (create_preview digest p id now st).1
  apply (discover p id expected paths now) st =
      (create_unmanaged digest p id expected paths now st).1
  apply (approve id allow now) st = (authorize_prune id allow now st).1
  apply (claim p now) st = (claim_prune p now st).1
  apply (reclaim p now) st = (claim_retrying p now st).1
  apply (outcome id path result message now) st =
      (mark_target_result id path result message now st).1
  apply (batch id paths result now) st = (mark_batch id paths result now st).1
  apply (finish id now) st = (commit_complete id now st).1
  apply (retry id message now) st = set_retrying id message now st
  apply (abandon id message now) st = set_failed id message now st

  abbrev pub Allowed : Op → Store → Type 0
  Allowed (finish id now) st = Owned id st
  Allowed (retry id message now) st = Owned id st
  Allowed _ st = Unit

  pub data Reach : Store → Type 0 where
    start : (st : Store) → st.prune_requests ≡ [] → Reach st
    next : {st : Store} (op : Op) → Reach st → Allowed op st → Reach (apply op st)

-- A claim of the profile starts the request.
abbrev pub IsStarted : String → ℕ → PruneRequest → Store → Type 0
IsStarted p now r st =
    ((claim_retrying p now st).0 ≡ some r)
    ⊎ (((claim_prune p now st).0 ≡ ok (some r)) × (r.state ≡ running))

-- The candidates of the request are within its accepted limit.
abbrev pub IsWithin : PruneRequest → Type 0
IsWithin r =
    (limit : ℤ) × (r.authorized_limit ≡ some limit) × (lt_count limit r.candidate_count ≡ false)

-- The committed policy has the hash of the request, and is refreshed.
abbrev pub IsCommitted : String → PruneRequest → Store → Type 0
IsCommitted p r st =
    (c : CommittedPolicy) × (st.db.policy p ≡ some c)
    × (c.policy_hash ≡ r.policy_hash)
    × (refresh_is_ready c ≡ true)

-- A commit of a policy makes requests stale only.
policy-Sound :
    (p h : String) (accept : Bool) (now : ℕ) (st : Store)
    → Sound st
    → Sound (commit_ignore_snapshot p h accept now st).1
policy-Sound p h accept now st w = elim (commit-cases p h accept now st) [
  | inl same ↦ subst Sound (sym same) w
  | inr (r, n, row, above, wrote) ↦ subst Sound (sym wrote) (staled n)
]
  where
    staled : (n : ℕ) → Sound (commit_writes p h n now st)
    staled n =
        let less =
          plain-Sound (outdated p h) (set_state PruneState.stale now) st w (λ v. refl)
            (λ v a e. ground arith) in
        unfold commit_writes in record { authorized = less.authorized; unique = less.unique }

forget-Sound : (p : String) (st : Store) → Sound st → Sound (forget_profile_requests p st)
unfolding forget_profile_requests
forget-Sound p st w = left (forget_profile p st.db).0
  where
    fewer : Sound (forget_requests p st)
    fewer =
        unfold forget_requests in
        record {
          authorized =
              All-imp _ _ _ (λ v h. h.0)
                (All-delete_where Authorized (λ r. str_eq r.profile_id p) st.prune_requests
                  w.authorized);
          unique = λ id.
              let least =
                count-delete_le (is_request id) (λ r. str_eq r.profile_id p) st.prune_requests in
              omega (arith, w.unique id, least);
        }

    left : (o : Result (Unit {0})) → Sound (elim o [ err e ↦ st | ok done ↦ forget_requests p st ])
    left (err e) = w
    left (ok done) = fewer

module _ (digest : List String → String) where
  apply-Sound :
      (op : Op) (st : Store) → Allowed digest op st → Sound st → Sound (apply digest op st)
  unfolding apply
  apply-Sound (others db ledger) st a w = record { authorized = w.authorized; unique = w.unique }
  apply-Sound (commit_policy p h accept now) st a w = policy-Sound p h accept now st w
  apply-Sound (forget p) st a w = forget-Sound p st w
  apply-Sound (preview p id now) st a w = preview_all-Sound digest p id now st w
  apply-Sound (discover p id expected paths now) st a w =
      create_unmanaged-Sound digest p id expected paths now st w
  apply-Sound (approve id allow now) st a w = authorize-Sound id allow now st w
  apply-Sound (claim p now) st a w = claim-Sound p now st w
  apply-Sound (reclaim p now) st a w = reclaim-Sound p now st w
  apply-Sound (outcome id path result message now) st a w =
      outcome-Sound id path result message now st w
  apply-Sound (batch id paths result now) st a w = batch-Sound id paths result now st w
  apply-Sound (finish id now) st a w = finish-Sound id now st a w
  apply-Sound (retry id message now) st a w = retry-Sound id message now st a w
  apply-Sound (abandon id message now) st a w =
      unfold set_failed in plain-Sound (is_request id) _ st w (λ v. refl) (λ v a h. ground arith)

  Reach-Sound : {st : Store} → Reach digest st → Sound st
  unfolding count_where
  Reach-Sound (start st none_there) = record {
    authorized = rw none_there tt;
    unique = λ id. rw none_there (omega arith);
  }
  Reach-Sound (next {st} op r a) = apply-Sound op st a (Reach-Sound r)

  -- The request that ClaimPrune starts.
  pending_authorized :
      {st : Store} (p : String) (now : ℕ) (r : PruneRequest)
      → Reach digest st
      → (claim_prune p now st).0 ≡ ok (some r)
      → r.state ≡ running
      → (limit : ℤ) × (r.authorized_limit ≡ some limit)
        × (lt_count limit r.candidate_count ≡ false)
        × ((c : CommittedPolicy) × (st.db.policy p ≡ some c)
            × (c.policy_hash ≡ r.policy_hash)
            × (refresh_is_ready c ≡ true))
  unfolding claim_prune
  pending_authorized {st} p now r reach h runs =
      elim (Option-cases (oldest (request_in p is_pending) st.prune_requests)) [
        | inl e ↦ absurd (nothing (rw (e, claim_prune) at h))
        | inr (q, e) ↦ elim (Option-cases (st.db.policy p)) [
          | inl e' ↦ absurd (failed (rw (e, e', claim_prune) at h))
          | inr (c, e') ↦
              elim (Bool-cases (str_eq c.policy_hash q.policy_hash && refresh_is_ready c)) [
                | inr b ↦ absurd (went_stale q (inner (rw (e, e', b, claim_prune) at h)))
                | inl b ↦
                    let same : set_state running now q ≡ r =
                      inner (rw (e, e', b, claim_prune) at h) in
                    let (m, passes) = oldest-mem (request_in p is_pending) st.prune_requests q e in
                    let (limit, accepted, within) =
                      All-mem Authorized q st.prune_requests (Reach-Sound reach).authorized m
                        (pending-executing q.state (ground (arith, passes))) in
                    subst
                      (λ x.
                        (l : ℤ) × (x.authorized_limit ≡ some l)
                        × (lt_count l x.candidate_count ≡ false)
                        × ((d : CommittedPolicy) × (st.db.policy p ≡ some d)
                            × (d.policy_hash ≡ x.policy_hash)
                            × (refresh_is_ready d ≡ true)))
                      same
                      (
                        limit,
                        accepted,
                        within,
                        (
                          c,
                          e',
                          ground (arith, b, eq_iff c.policy_hash q.policy_hash),
                          ground (arith, b),
                        ),
                      )
              ]
        ]
      ]
    where
      inner : {a b : PruneRequest} → ok (some a) ≡ ok (some b) → a ≡ b
      inner e = ground arith

      nothing : ok none ≢ ok (some r)
      nothing e = ground arith

      failed : {e : Err} → err e ≢ ok (some r)
      failed k = ground arith

      went_stale : (q : PruneRequest) → record q { state = PruneState.stale } ≢ r
      went_stale q k = ground (arith, ap (λ x. x.state) k, runs)

  -- The request that ClaimRetryingPrune starts again.
  retrying_authorized :
      {st : Store} (p : String) (now : ℕ) (r : PruneRequest)
      → Reach digest st
      → (claim_retrying p now st).0 ≡ some r
      → IsWithin r
  unfolding claim_retrying
  retrying_authorized {st} p now r reach h =
      elim (Option-cases (oldest (request_in p is_owned) st.prune_requests)) [
        | inl e ↦ absurd (ground (arith, rw (e, claim_retrying) at h))
        | inr (q, e) ↦
            let same : set_state running now q ≡ r = some_injective (rw (e, claim_retrying) at h) in
            let (m, passes) = oldest-mem (request_in p is_owned) st.prune_requests q e in
            let within =
              All-mem Authorized q st.prune_requests (Reach-Sound reach).authorized m
                (owned-executing q.state (ground (arith, passes))) in
            subst IsWithin same within
      ]

  -- A prune that starts is authorized: in every store that the operations reach, the request that
  -- ClaimRetryingPrune or ClaimPrune starts has an accepted limit that the number of its candidates
  -- does not exceed; and where ClaimPrune starts it, the committed policy has the request's hash and
  -- is refreshed.
  pub claimed_prune_authorized :
      {st : Store} (p : String) (now : ℕ) (r : PruneRequest)
      → Reach digest st
      → IsStarted p now r st
      → IsWithin r × (((claim_retrying p now st).0 ≡ some r) ⊎ IsCommitted p r st)
  claimed_prune_authorized p now r reach (inl again) =
      (retrying_authorized p now r reach again, inl again)
  claimed_prune_authorized p now r reach (inr (h, runs)) =
      let (limit, accepted, within, policy) = pending_authorized p now r reach h runs in
      ((limit, accepted, within), inr policy)
