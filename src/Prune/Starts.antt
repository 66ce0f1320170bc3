-- ===== src/Prune/Starts.antt =====
-- The preview, the approval and the claim of a request keep its authorization.
use gd_sync_harness.Prelude.{
  ℕ, ℤ, ◌≤◌, ◌+◌, ◌⊎◌, String, ◌≡◌, refl, subst, true, false, ◌&&◌, some, inl, inr, List, [], ◌∷◌,
  All-append, lt_count, str_eq, arith, eq_refl, eq_iff, Bool-cases, Option-cases, if◌then◌else◌,
}
use gd_sync_harness.Db.Table.{update_where, exists_where, count_where}
use gd_sync_harness.Db.Table.Counts.{count-update_same, count-insert, exists-count}
use gd_sync_harness.Db.Ledger.{Store, PruneRequest, PruneState, TargetState, running}
use gd_sync_harness.Prune.{
  find_request, oldest, is_request, request_in, is_pending, is_owned, is_preview, set_state,
  preview_writes, create_preview, effective_limit, authorize, authorize_prune, set_request,
  start_prune, claim_prune, claim_retrying, refresh_is_ready,
}
use gd_sync_harness.Prune.Outcome.{raise_count}
use gd_sync_harness.Prune.Limits.{
  is_executing, Authorized, Sound, find_request-mem, oldest-mem, set_request-Sound, plain-Sound,
}

pub owned-executing : (s : PruneState) → is_owned s ≡ true → is_executing s ≡ true
owned-executing running h = refl
owned-executing PruneState.retrying h = refl
owned-executing PruneState.pending h = ground arith
owned-executing PruneState.previewed h = ground arith
owned-executing PruneState.approval_required h = ground arith
owned-executing PruneState.completed h = refl
owned-executing PruneState.stale h = ground arith
owned-executing PruneState.superseded h = ground arith
owned-executing PruneState.failed h = ground arith

pub pending-executing : (s : PruneState) → is_pending s ≡ true → is_executing s ≡ true
pending-executing PruneState.pending h = refl
pending-executing running h = refl
pending-executing PruneState.retrying h = refl
pending-executing PruneState.completed h = refl
pending-executing PruneState.previewed h = ground arith
pending-executing PruneState.approval_required h = ground arith
pending-executing PruneState.stale h = ground arith
pending-executing PruneState.superseded h = ground arith
pending-executing PruneState.failed h = ground arith

pub raise_count-kept :
    (result : TargetState) (n now : ℕ) (v : PruneRequest)
    → ((raise_count result n now v).request_id ≡ v.request_id)
      × (Authorized v → Authorized (raise_count result n now v))
raise_count-kept TargetState.pending n now v = (refl, λ a. a)
raise_count-kept TargetState.deleted n now v = (refl, λ a. a)
raise_count-kept TargetState.missing n now v = (refl, λ a. a)

pub preview-Sound :
    (r : PruneRequest) (paths : List String) (now : ℕ) (st : Store)
    → Sound st
    → is_executing r.state ≡ false
    → exists_where (is_request r.request_id) st.prune_requests ≡ false
    → Sound (preview_writes r paths now st)
unfolding preview_writes
preview-Sound r paths now st w idle fresh =
    let w1 =
      plain-Sound (request_in r.profile_id is_preview) (set_state PruneState.superseded now) st w
        (λ v. refl) (λ v a h. ground arith) in
    record {
      authorized =
          All-append Authorized _ (r ∷ []) w1.authorized ((λ h. ground (arith, h, idle)), tt);
      unique = λ id.
          rw (count-insert (is_request id)) (room id (w1.unique id) (Bool-cases (is_request id r)));
    }
  where
    same_ids :
        (id : String)
        → count_where (is_request id) (
            update_where
              (request_in r.profile_id is_preview)
              (set_state PruneState.superseded now)
              st.prune_requests)
          ≡ count_where (is_request id) st.prune_requests
    same_ids id = count-update_same (is_request id) _ _ st.prune_requests (λ v. refl)

    room :
        (id : String)
        → count_where (is_request id) (
            update_where
              (request_in r.profile_id is_preview)
              (set_state PruneState.superseded now)
              st.prune_requests)
          ≤ 1
        → (is_request id r ≡ true) ⊎ (is_request id r ≡ false)
        → count_where (is_request id) (
              update_where
                (request_in r.profile_id is_preview)
                (set_state PruneState.superseded now)
                st.prune_requests)
            + (if is_request id r then 1 else 0)
          ≤ 1
    room id one (inl b) =
        let free =
          subst (λ x. count_where (is_request x) st.prune_requests ≡ 0)
            ((eq_iff r.request_id id).0 b)
            (exists-count (is_request r.request_id) st.prune_requests fresh) in
        rw (b, same_ids id) (omega (arith, free))
    room id one (inr b) = rw b (omega (arith, one))

pub authorize-Sound :
    (id : String) (allow : ℤ) (now : ℕ) (st : Store)
    → Sound st
    → Sound (authorize_prune id allow now st).1
unfolding authorize_prune
authorize-Sound id allow now st w =
    elim (Option-cases (find_request (is_request id) st.prune_requests)) [
      | inl e ↦ rw (e, authorize_prune) w
      | inr (r, e) ↦ elim (Bool-cases (lt_count (effective_limit allow r) r.candidate_count)) [
        | inl b ↦ rw (e, b, authorize_prune) w
        | inr b ↦
            let (m, named) = find_request-mem (is_request id) st.prune_requests r e in
            rw (e, b, authorize_prune)
              (set_request-Sound id (authorize (effective_limit allow r) now) st r w m named
                (λ v. refl) (λ a h. (effective_limit allow r, refl, b)))
      ]
    ]

pub claim-Sound : (p : String) (now : ℕ) (st : Store) → Sound st → Sound (claim_prune p now st).1
unfolding claim_prune start_prune
claim-Sound p now st w = elim (Option-cases (oldest (request_in p is_pending) st.prune_requests)) [
  | inl e ↦ rw (e, claim_prune) w
  | inr (r, e) ↦ elim (Option-cases (st.db.policy p)) [
    | inl e' ↦ rw (e, e', claim_prune) w
    | inr (c, e') ↦ elim (Bool-cases (str_eq c.policy_hash r.policy_hash && refresh_is_ready c)) [
      | inl b ↦ rw (e, e', b, claim_prune) (started r e)
      | inr b ↦ rw (e, e', b, claim_prune) (staled r)
    ]
  ]
]
  where
    started :
        (r : PruneRequest)
        → oldest (request_in p is_pending) st.prune_requests ≡ some r
        → Sound (start_prune r.request_id now st)
    started r e =
        let (m, passes) = oldest-mem (request_in p is_pending) st.prune_requests r e in
        let w1 =
          set_request-Sound r.request_id (set_state running now) st r w m (eq_refl r.request_id)
            (λ v. refl) (λ a h. a (pending-executing r.state (ground (arith, passes)))) in
        record { authorized = w1.authorized; unique = w1.unique }

    staled :
        (r : PruneRequest) → Sound (set_request r.request_id (set_state PruneState.stale now) st)
    staled r =
        plain-Sound (is_request r.request_id) (set_state PruneState.stale now) st w (λ v. refl)
          (λ v a h. ground arith)

pub reclaim-Sound :
    (p : String) (now : ℕ) (st : Store) → Sound st → Sound (claim_retrying p now st).1
unfolding claim_retrying
reclaim-Sound p now st w = elim (Option-cases (oldest (request_in p is_owned) st.prune_requests)) [
  | inl e ↦ rw (e, claim_retrying) w
  | inr (r, e) ↦
      let (m, passes) = oldest-mem (request_in p is_owned) st.prune_requests r e in
      rw (e, claim_retrying)
        (set_request-Sound r.request_id (set_state running now) st r w m (eq_refl r.request_id)
          (λ v. refl) (λ a h. a (owned-executing r.state (ground (arith, passes)))))
]

pub preview_all-Sound :
    (digest : List String → String) (p id : String) (now : ℕ) (st : Store)
    → Sound st
    → Sound (create_preview digest p id now st).1
unfolding create_preview
preview_all-Sound digest p id now st w = elim (Option-cases (st.db.policy p)) [
  | inl e ↦ rw (e, create_preview) w
  | inr (c, e) ↦ elim (Bool-cases (refresh_is_ready c)) [
    | inr b ↦ rw (e, b, create_preview) w
    | inl b ↦ elim (Option-cases (st.db.profiles p)) [
      | inl e' ↦ rw (e, b, e', create_preview) w
      | inr (pr, e') ↦ elim (Bool-cases (exists_where (is_request id) st.prune_requests)) [
        | inl b' ↦ rw (e, b, e', b', create_preview) w
        | inr b' ↦ rw (e, b, e', b', create_preview) (preview-Sound _ _ now st w refl b')
      ]
    ]
  ]
]
