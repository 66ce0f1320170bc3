-- ===== src/Prune/Preview.antt =====
-- The preview of a profile, and what the end of a prune removes from the ledger.
use mathlib.Core.List.{Memᴰ}
use gd_sync_harness.Prelude.{
  ℕ, ℤ, String, ◌≡◌, ◌↔◌, ◌≢◌, refl, sym, ap, Bool, false, ◌&&◌, some, inl, inr, List, [], ◌∷◌,
  ◌++◌, map, length, All, str_eq, arith, eq_refl, Bool-cases, Option-cases,
}
use gd_sync_harness.Db.Table.{delete_where, update_where, select_where, exists_where, count_where}
use gd_sync_harness.Db.Table.Laws.{mem-delete_where, delete_where-mem}
use gd_sync_harness.Db.Table.Counts.{count-insert, count-delete_self}
use gd_sync_harness.Db.Schema.{Err, ok, err}
use gd_sync_harness.Db.Ledger.{
  Store, ManifestEntry, PruneRequest, PruneTarget, is_suppressed, superseded,
}
use gd_sync_harness.Manifest.{entry_at}
use gd_sync_harness.Prune.{
  create_preview, preview_writes, is_request, request_in, is_preview, set_state, is_deleted,
  find_request, new_target, candidates, refresh_is_ready, new_request,
}
use gd_sync_harness.Prune.Outcome.{drop_deleted, commit_complete}

-- The statement that supersedes leaves no preview of the profile.
no_preview :
    (p : String) (now : ℕ) (rs : List PruneRequest)
    → count_where
        (request_in p is_preview)
        (update_where (request_in p is_preview) (set_state superseded now) rs)
      ≡ 0
unfolding count_where update_where
no_preview p now [] = refl
no_preview p now (r ∷ rs) = ground (arith, no_preview p now rs)

-- A deleted target with the path of the entry.
abbrev pub removes : String → ManifestEntry → PruneTarget → Bool
removes p e t = is_deleted t.state && (entry_at p t.rel_path e && is_suppressed e.state)

drop_deleted-mem :
    (p : String) (ts : List PruneTarget) (es : List ManifestEntry) (e : ManifestEntry)
    → Memᴰ e (drop_deleted p ts es) ↔ (Memᴰ e es × All (λ t. removes p e t ≡ false) ts)
unfolding drop_deleted
drop_deleted-mem p [] es e = (λ m. (m, tt), λ h. h.0)
drop_deleted-mem p (t ∷ ts) es e = elim (Bool-cases (is_deleted t.state)) [
  | inr b ↦ rw b (
    λ m. let (there, rest) = (drop_deleted-mem p ts es e).0 m in (there, (ground arith, rest)),
    λ h. (drop_deleted-mem p ts es e).1 (h.0, h.1.1),
  )
  | inl b ↦ rw b (
    λ m.
        let (there, rest) = (drop_deleted-mem p ts (kept t) e).0 m in
        let (before, fails) = delete_where-mem (covers t) e es there in (before, (fails, rest)),
    λ h. (drop_deleted-mem p ts (kept t) e).1 (mem-delete_where (covers t) e es h.1.0 h.0, h.1.1),
  )
]
  where
    covers : PruneTarget → ManifestEntry → Bool
    covers t v = entry_at p t.rel_path v && is_suppressed v.state

    kept : PruneTarget → List ManifestEntry
    kept t = delete_where (covers t) es

-- The end of a prune removes from the ledger exactly the suppressed entries of the request's profile
-- whose target in the request was deleted: every entry that is active or protected stays, and so
-- does every entry whose target is pending or missing. The request keeps no targets.
completion_exact :
    (id : String) (now : ℕ) (st : Store) (r : PruneRequest)
    → find_request (is_request id) st.prune_requests ≡ some r
    → ((e : ManifestEntry)
        → Memᴰ e (commit_complete id now st).1.manifest ↔ (
            Memᴰ e st.manifest
            × All
                (λ t. removes r.profile_id e t ≡ false)
                (select_where (λ t. str_eq t.request_id id) st.prune_targets)))
      × (count_where (λ t. str_eq t.request_id id) (commit_complete id now st).1.prune_targets ≡ 0)
unfolding commit_complete
completion_exact id now st r found =
    rw (found, commit_complete)
      (λ e. drop_deleted-mem r.profile_id _ st.manifest e, count-delete_self _ st.prune_targets)

-- A new preview is the only one of its profile: after CreatePrunePreview returns a request, the
-- profile has exactly one request that is previewed or waits for approval. Its candidates are as
-- many as its targets, which are inserted at the end, pending, one for each suppressed entry of the
-- committed policy.
preview_alone :
    (digest : List String → String) (p id : String) (now : ℕ) (st : Store) (r : PruneRequest)
    → (create_preview digest p id now st).0 ≡ ok r
    → (count_where (request_in p is_preview) (create_preview digest p id now st).1.prune_requests
        ≡ 1)
      × ((paths : List String) × (r.candidate_count ≡ length paths)
          × (r.candidate_digest ≡ digest paths)
          × (paths ≡ candidates p r.policy_hash st.manifest)
          × ((create_preview digest p id now st).1.prune_targets
              ≡ st.prune_targets ++ map (new_target id now) paths))
unfolding create_preview preview_writes
preview_alone digest p id now st r h = elim (Option-cases (st.db.policy p)) [
  | inl e ↦ absurd (no_result (rw (e, create_preview) at h))
  | inr (c, e) ↦ elim (Bool-cases (refresh_is_ready c)) [
    | inr b ↦ absurd (no_result (rw (e, b, create_preview) at h))
    | inl b ↦ elim (Option-cases (st.db.profiles p)) [
      | inl e' ↦ absurd (no_result (rw (e, b, e', create_preview) at h))
      | inr (pr, e') ↦ elim (Bool-cases (exists_where (is_request id) st.prune_requests)) [
        | inl b' ↦ absurd (no_result (rw (e, b, e', b', create_preview) at h))
        | inr b' ↦
            let paths = candidates p c.policy_hash st.manifest in
            let same = ok_injective (rw (e, b, e', b', create_preview) at h) in
            rw (e, b, e', b', create_preview)
              (
                alone c.policy_hash pr.max_delete paths,
                (
                  paths,
                  sym (ap (λ x. x.candidate_count) same),
                  sym (ap (λ x. x.candidate_digest) same),
                  ap (λ x. candidates p x.policy_hash st.manifest) same,
                  refl,
                ),
              )
      ]
    ]
  ]
]
  where
    no_result : {e : Err} → err e ≢ ok r
    no_result k = ground arith

    ok_injective : {q : PruneRequest} → ok q ≡ ok r → q ≡ r
    ok_injective k = ground arith

    alone :
        (policy_hash : String) (max_delete : ℤ) (paths : List String)
        → count_where
            (request_in p is_preview)
            (preview_writes
              (new_request digest p id policy_hash max_delete paths now)
              paths
              now
              st).prune_requests
          ≡ 1
    alone policy_hash max_delete paths =
        rw (count-insert (request_in p is_preview), no_preview p now st.prune_requests, eq_refl p)
          refl
