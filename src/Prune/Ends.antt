-- ===== src/Prune/Ends.antt =====
-- The outcomes of a request and its end keep its authorization.
use gd_sync_harness.Prelude.{
  ℕ, ◌⊎◌, String, ◌≡◌, refl, inl, inr, List, [], ◌∷◌, ltb, arith, Bool-cases, Option-cases,
}
use gd_sync_harness.Db.Table.{exists_where}
use gd_sync_harness.Db.Ledger.{Store, TargetState}
use gd_sync_harness.Prune.{find_request, is_request, set_request}
use gd_sync_harness.Prune.Outcome.{
  target_at, raise_count, mark_target_result, commit_complete, set_retrying,
}
use gd_sync_harness.Prune.Batch.{Marking, is_terminal, mark_batch, mark_paths}
use gd_sync_harness.Prune.Limits.{Owned, Sound, set_request-Sound, plain-Sound}
use gd_sync_harness.Prune.Starts.{owned-executing, raise_count-kept}

-- A statement on the requests, beside any change of the other tables.
pub beside-Sound : (st st' : Store) → st'.prune_requests ≡ st.prune_requests → Sound st → Sound st'
beside-Sound st st' same w = record {
  authorized = rw same w.authorized;
  unique = λ id. rw same (w.unique id);
}

pub count-Sound :
    (id : String) (result : TargetState) (n now : ℕ) (st : Store)
    → Sound st
    → Sound (set_request id (raise_count result n now) st)
count-Sound id result n now st w =
    plain-Sound (is_request id) (raise_count result n now) st w
      (λ v. (raise_count-kept result n now v).0) (λ v. (raise_count-kept result n now v).1)

pub outcome-Sound :
    (id path : String) (result : TargetState) (message : String) (now : ℕ) (st : Store)
    → Sound st
    → Sound (mark_target_result id path result message now st).1
unfolding mark_target_result
outcome-Sound id path result message now st w =
    elim (Bool-cases (exists_where (target_at id path) st.prune_targets)) [
      | inl b ↦
          rw (b, mark_target_result)
            (let w1 = count-Sound id result 1 now st w in
              record { authorized = w1.authorized; unique = w1.unique })
      | inr b ↦ rw (b, mark_target_result) w
    ]

pub finish-Sound :
    (id : String) (now : ℕ) (st : Store)
    → Owned id st
    → Sound st
    → Sound (commit_complete id now st).1
unfolding commit_complete
finish-Sound id now st (r, m, named, owned) w =
    elim (Option-cases (find_request (is_request id) st.prune_requests)) [
      | inl e ↦ rw (e, commit_complete) w
      | inr (q, e) ↦
          rw (e, commit_complete)
            (let w1 =
                set_request-Sound id _ st r w m named (λ v. refl)
                  (λ a h. a (owned-executing r.state owned)) in
              record { authorized = w1.authorized; unique = w1.unique })
    ]

pub batch-Sound :
    (id : String) (paths : List String) (result : TargetState) (now : ℕ) (st : Store)
    → Sound st
    → Sound (mark_batch id paths result now st).1
unfolding mark_batch
batch-Sound id [] result now st w = w
batch-Sound id (path ∷ paths) result now st w = elim split [
  | inl same ↦ beside-Sound st _ same w
  | inr (n, same) ↦
      beside-Sound (set_request id (raise_count result n now) st) _ same
        (count-Sound id result n now st w)
]
  where
    split :
        ((mark_batch id (path ∷ paths) result now st).1.prune_requests ≡ st.prune_requests)
        ⊎ ((n : ℕ) × ((mark_batch id (path ∷ paths) result now st).1.prune_requests
              ≡ (set_request id (raise_count result n now) st).prune_requests))
    split = elim (Bool-cases (is_terminal result)) [
      | inr b ↦ inl (ground arith)
      | inl b ↦ elim (Option-cases (find_request (is_request id) st.prune_requests)) [
        | inl e ↦ inl (ground arith)
        | inr (r, e) ↦
            let m : Marking =
              mark_paths r.profile_id id result now (path ∷ paths)
                (record { targets = st.prune_targets; manifest = st.manifest; changed = 0 }) in
            elim (Bool-cases (ltb 0 m.changed)) [
              | inl c ↦ inr (m.changed, ground arith)
              | inr c ↦ inl (ground arith)
            ]
      ]
    ]

pub retry-Sound :
    (id message : String) (now : ℕ) (st : Store)
    → Owned id st
    → Sound st
    → Sound (set_retrying id message now st)
unfolding set_retrying
retry-Sound id message now st (r, m, named, owned) w =
    set_request-Sound id _ st r w m named (λ v. refl) (λ a h. a (owned-executing r.state owned))
