-- ===== src/Prune/Unmanaged.antt =====
-- internal/state/prune_discovery.go: the preview of paths that were found on the remote and are not
-- managed.
use gd_sync_harness.Prelude.{
  ℕ, String, Bool, ◌≡◌, ◌∙◌, refl, sym, ap, subst, true, false, not, ◌&&◌, inl, inr, Option, none,
  some, List, [], ◌∷◌, ◌++◌, map, All, arith, length, str_eq, Bool-cases, Option-cases,
  some_injective, if◌then◌else◌, eq_iff,
}
use gd_sync_harness.Db.Table.{select_where, exists_where}
use gd_sync_harness.Db.Schema.{
  CommittedPolicy, Result, ok, err, not_found, constraint, policy_changed, invalid_candidate,
}
use gd_sync_harness.Db.Ledger.{Store, ManifestEntry, PruneRequest}
use gd_sync_harness.Manifest.{entry_at}
use gd_sync_harness.Paths.{codes_of, validate_canonical, is_derived_path}
use gd_sync_harness.Sorted.{sorted_paths, All-sorted_paths}
use gd_sync_harness.Prune.Limits.{Sound}
use gd_sync_harness.Prune.Starts.{preview-Sound}
use gd_sync_harness.Prune.{refresh_is_ready, is_request, new_request, new_target, preview_writes}

abbrev pub is_candidate : String → Bool
is_candidate path = validate_canonical (codes_of path) && not (is_derived_path (codes_of path))

abbrev all_candidates : List String → Bool
all_candidates [] = true
all_candidates (path ∷ paths) = is_candidate path && all_candidates paths

-- normalizePruneCandidatePaths
unfoldable pub normalize_candidates : List String → Option (List String)
unfolding sorted_paths
normalize_candidates paths = if all_candidates paths then some (sorted_paths paths) else none

abbrev pub is_managed : String → List ManifestEntry → String → Bool
is_managed p es path = exists_where (entry_at p path) es

unfoldable pub unmanaged : String → List ManifestEntry → List String → List String
unmanaged p es paths = select_where (λ path. not (is_managed p es path)) paths

-- From the normalized candidates on.
unfoldable pub freeze_unmanaged :
    (List String → String)
    → String
    → String
    → String
    → List String
    → ℕ
    → Store
    → Result PruneRequest × Store
unfolding preview_writes
freeze_unmanaged digest p id policy_hash paths now st = elim (st.db.profiles p) [
  | none ↦ (err not_found, st)
  | some pr ↦
      let r = new_request digest p id policy_hash pr.max_delete paths now in
      if exists_where (is_request id) st.prune_requests
      then (err constraint, st)
      else (ok r, preview_writes r paths now st)
]

-- CreatePrunePreviewFromUnmanagedPaths
unfoldable pub create_unmanaged :
    (List String → String)
    → String
    → String
    → String
    → List String
    → ℕ
    → Store
    → Result PruneRequest × Store
unfolding normalize_candidates unmanaged freeze_unmanaged
create_unmanaged digest p id expected candidates now st = elim (st.db.policy p) [
  | none ↦ (err not_found, st)
  | some c ↦
      if refresh_is_ready c && str_eq c.policy_hash expected
      then (elim (normalize_candidates candidates) [
        | none ↦ (err invalid_candidate, st)
        | some paths ↦
            freeze_unmanaged digest p id c.policy_hash (unmanaged p st.manifest paths) now st
      ])
      else (err policy_changed, st)
]

-- A path that the preview may freeze.
abbrev pub MayFreeze : String → List ManifestEntry → String → Type 0
MayFreeze p es path = (is_candidate path ≡ true) × (is_managed p es path ≡ false)

all_candidates-All :
    (paths : List String) → all_candidates paths ≡ true → All (λ x. is_candidate x ≡ true) paths
all_candidates-All [] h = tt
all_candidates-All (x ∷ xs) h = (ground arith, all_candidates-All xs (ground arith))

unmanaged-MayFreeze :
    (p : String) (es : List ManifestEntry) (paths : List String)
    → All (λ x. is_candidate x ≡ true) paths
    → All (MayFreeze p es) (unmanaged p es paths)
unfolding unmanaged select_where
unmanaged-MayFreeze p es [] h = tt
unmanaged-MayFreeze p es (x ∷ xs) (fine, h) = elim (Bool-cases (is_managed p es x)) [
  | inl b ↦ rw b (unmanaged-MayFreeze p es xs h)
  | inr b ↦ rw b ((fine, b), unmanaged-MayFreeze p es xs h)
]

normalized-candidates :
    (candidates paths : List String)
    → normalize_candidates candidates ≡ some paths
    → All (λ x. is_candidate x ≡ true) paths
unfolding normalize_candidates
normalized-candidates candidates paths h = elim (Bool-cases (all_candidates candidates)) [
  | inr b ↦ absurd (ground arith)
  | inl b ↦
      let same : sorted_paths candidates ≡ paths = some_injective (ground arith) in
      subst (All (λ x. is_candidate x ≡ true)) same
        (All-sorted_paths (λ x. is_candidate x ≡ true) candidates (all_candidates-All candidates b))
]

-- What a preview of discovered paths has frozen.
pub record Frozen (p id expected : String) (now : ℕ) (st after : Store) (r : PruneRequest)
    : Type 0 where
  pub policy : CommittedPolicy
  pub policy_row : st.db.policy p ≡ some policy
  pub is_ready : refresh_is_ready policy ≡ true
  pub hash : r.policy_hash ≡ expected
  pub same_hash : policy.policy_hash ≡ expected
  pub paths : List String
  pub fine : All (MayFreeze p st.manifest) paths
  pub counted : r.candidate_count ≡ length paths
  pub targets : after.prune_targets ≡ st.prune_targets ++ map (new_target id now) paths

freeze-ok :
    (digest : List String → String) (p id policy_hash : String) (paths : List String) (now : ℕ)
    (st : Store) (r : PruneRequest)
    → (freeze_unmanaged digest p id policy_hash paths now st).0 ≡ ok r
    → (r.policy_hash ≡ policy_hash)
      × (r.candidate_count ≡ length paths)
      × ((freeze_unmanaged digest p id policy_hash paths now st).1.prune_targets
          ≡ st.prune_targets ++ map (new_target id now) paths)
unfolding freeze_unmanaged preview_writes
freeze-ok digest p id policy_hash paths now st r h = (ground arith, ground arith, ground arith)

created-frozen :
    (digest : List String → String) (p id expected : String) (candidates : List String) (now : ℕ)
    (st : Store) (r : PruneRequest)
    → (create_unmanaged digest p id expected candidates now st).0 ≡ ok r
    → (c : CommittedPolicy) × (paths : List String) × (st.db.policy p ≡ some c)
      × ((refresh_is_ready c && str_eq c.policy_hash expected) ≡ true)
      × (normalize_candidates candidates ≡ some paths)
      × (create_unmanaged digest p id expected candidates now st
          ≡ freeze_unmanaged digest p id c.policy_hash (unmanaged p st.manifest paths) now st)
unfolding create_unmanaged
created-frozen digest p id expected candidates now st r h = elim (Option-cases (st.db.policy p)) [
  | inl n ↦ ground arith
  | inr (c, e) ↦ elim (Option-cases (normalize_candidates candidates)) [
    | inl n ↦ ground arith
    | inr (paths, k) ↦ (c, paths, e, ground arith, k, ground arith)
  ]
]

-- A preview of discovered paths freezes, under the expected policy hash with a refresh that is ready,
-- only canonical paths outside the derived namespace of which the ledger has no entry in any state,
-- each as a new pending target, and counts them.
pub create_unmanaged-Frozen :
    (digest : List String → String) (p id expected : String) (candidates : List String) (now : ℕ)
    (st : Store) (r : PruneRequest)
    → (create_unmanaged digest p id expected candidates now st).0 ≡ ok r
    → Frozen p id expected now st (create_unmanaged digest p id expected candidates now st).1 r
create_unmanaged-Frozen digest p id expected candidates now st r h =
    let (c, paths, row, checked, normal, same) =
      created-frozen digest p id expected candidates now st r h in
    let kept = unmanaged p st.manifest paths in
    let (hash, counted, targets) =
      freeze-ok digest p id c.policy_hash kept now st r (ap (λ v. v.0) (sym same) ∙ h) in
    let matching : c.policy_hash ≡ expected = (eq_iff c.policy_hash expected).0 (ground arith) in
    record {
      policy = c;
      policy_row = row;
      is_ready = ground arith;
      hash = hash ∙ matching;
      same_hash = matching;
      paths = kept;
      fine =
          unmanaged-MayFreeze p st.manifest paths (normalized-candidates candidates paths normal);
      counted = counted;
      targets = ap (λ v. v.1.prune_targets) same ∙ targets;
    }

freeze-Sound :
    (digest : List String → String) (p id policy_hash : String) (paths : List String) (now : ℕ)
    (st : Store)
    → Sound st
    → Sound (freeze_unmanaged digest p id policy_hash paths now st).1
unfolding freeze_unmanaged
freeze-Sound digest p id policy_hash paths now st w = elim (Option-cases (st.db.profiles p)) [
  | inl e ↦ rw (e, freeze_unmanaged) w
  | inr (pr, e) ↦ elim (Bool-cases (exists_where (is_request id) st.prune_requests)) [
    | inl b ↦ rw (e, b, freeze_unmanaged) w
    | inr b ↦
        rw (e, b, freeze_unmanaged)
          (preview-Sound (new_request digest p id policy_hash pr.max_delete paths now) paths now st
            w refl b)
  ]
]

pub create_unmanaged-Sound :
    (digest : List String → String) (p id expected : String) (candidates : List String) (now : ℕ)
    (st : Store)
    → Sound st
    → Sound (create_unmanaged digest p id expected candidates now st).1
unfolding create_unmanaged
create_unmanaged-Sound digest p id expected candidates now st w =
    elim (Option-cases (st.db.policy p)) [
      | inl e ↦ rw (e, create_unmanaged) w
      | inr (c, e) ↦ elim (Bool-cases (refresh_is_ready c && str_eq c.policy_hash expected)) [
        | inr b ↦ rw (e, b, create_unmanaged) w
        | inl b ↦ elim (Option-cases (normalize_candidates candidates)) [
          | inl k ↦ rw (e, b, k, create_unmanaged) w
          | inr (paths, k) ↦
              rw (e, b, k, create_unmanaged)
                (freeze-Sound digest p id c.policy_hash (unmanaged p st.manifest paths) now st w)
        ]
      ]
    ]
