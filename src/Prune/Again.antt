-- ===== src/Prune/Again.antt =====
-- A batch that is reported again, as a worker does after an interruption.
use gd_sync_harness.Prelude.{
  ℕ, ◌+◌, String, ◌≡◌, refl, sym, subst, ◌∙◌, ap, true, false, ◌&&◌, some, inl, inr, List, [], ◌∷◌,
  All, All-imp, arith, Bool-cases, Option-cases, if◌then◌else◌,
}
use gd_sync_harness.Db.Table.{delete_where, update_where}
use gd_sync_harness.Db.Table.Laws.{All-update_where, update_where-none}
use gd_sync_harness.Db.Table.Counts.{count-none}
use gd_sync_harness.Db.Ledger.{Store, PruneRequest, PruneTarget, TargetState, is_suppressed}
use gd_sync_harness.Manifest.{entry_at}
use gd_sync_harness.Prune.{is_request, is_missing, find_request}
use gd_sync_harness.Prune.Batch.{
  is_terminal, unmarked, mark_terminal, Marking, mark_paths, mark_batch,
}

-- No target of the request at one of the paths is still open.
abbrev pub Done : String → List String → List PruneTarget → Type 0
Done id paths ts = All (λ path. All (λ t. unmarked id path t ≡ false) ts) paths

-- A loop over paths that are done changes nothing.
mark_paths_again :
    (p id : String) (result : TargetState) (now : ℕ) (paths : List String) (m : Marking)
    → Done id paths m.targets
    → mark_paths p id result now paths m ≡ m
unfolding mark_paths
mark_paths_again p id result now [] m d = refl
mark_paths_again p id result now (path ∷ paths) m (d, ds) =
    rw
      (
        count-none (unmarked id path) m.targets d,
        update_where-none (unmarked id path) (mark_terminal result now) m.targets d,
      )
      (ap (mark_paths p id result now paths) same ∙ mark_paths_again p id result now paths m ds)
  where
    same :
        record {
          targets = m.targets;
          manifest =
              if is_missing result && false
              then delete_where (λ e. entry_at p path e && is_suppressed e.state) m.manifest
              else m.manifest;
          changed = m.changed + 0;
        }
        ≡ m
    same = ground arith

-- What is done stays done.
mark_paths-keeps :
    (p id other : String) (result : TargetState) (now : ℕ) (paths : List String) (m : Marking)
    → is_terminal result ≡ true
    → All (λ t. unmarked id other t ≡ false) m.targets
    → All (λ t. unmarked id other t ≡ false) (mark_paths p id result now paths m).targets
unfolding mark_paths
mark_paths-keeps p id other result now [] m fin d = d
mark_paths-keeps p id other result now (path ∷ paths) m fin d =
    mark_paths-keeps p id other result now paths _ fin (
      All-update_where _ (unmarked id path) (mark_terminal result now) m.targets
        (All-imp _ _ m.targets (λ t h. (h, λ k. ground (arith, fin))) d))

mark_paths-Done :
    (p id : String) (result : TargetState) (now : ℕ) (paths : List String) (m : Marking)
    → is_terminal result ≡ true
    → Done id paths (mark_paths p id result now paths m).targets
unfolding mark_paths update_where
mark_paths-Done p id result now [] m fin = tt
mark_paths-Done p id result now (path ∷ paths) m fin = (
  mark_paths-keeps p id path result now paths _ fin (closed m.targets),
  mark_paths-Done p id result now paths _ fin,
)
  where
    closed :
        (ts : List PruneTarget)
        → All
            (λ t. unmarked id path t ≡ false)
            (update_where (unmarked id path) (mark_terminal result now) ts)
    closed [] = tt
    closed (t ∷ ts) = elim (Bool-cases (unmarked id path t)) [
      | inl b ↦ rw b (ground (arith, fin), closed ts)
      | inr b ↦ rw b (b, closed ts)
    ]

mark_batch_again :
    (id : String) (paths : List String) (result : TargetState) (now : ℕ) (st : Store)
    → Done id paths st.prune_targets
    → (mark_batch id paths result now st).1 ≡ st
unfolding mark_batch
mark_batch_again id [] result now st d = refl
mark_batch_again id (path ∷ paths) result now st d = elim (Bool-cases (is_terminal result)) [
  | inr b ↦ rw b refl
  | inl b ↦ elim (Option-cases (find_request (is_request id) st.prune_requests)) [
    | inl e ↦ rw (b, e) refl
    | inr (r, e) ↦
        rw
          (
            b,
            e,
            mark_paths_again r.profile_id id result now (path ∷ paths)
                (record { targets = st.prune_targets; manifest = st.manifest; changed = 0 }) d,
          )
          refl
  ]
]

-- A batch of outcomes is idempotent: reporting the same paths with the same outcome again, at any
-- later time, changes nothing, neither the targets nor the counters nor the ledger, whether the
-- first report succeeded or not.
batch_idempotent :
    (id : String) (paths : List String) (result : TargetState) (now later : ℕ) (st : Store)
    → let st1 = (mark_batch id paths result now st).1 in
      (mark_batch id paths result later st1).1 ≡ st1
unfolding mark_batch
batch_idempotent id [] result now later st = refl
batch_idempotent id (path ∷ paths) result now later st = elim (Bool-cases (is_terminal result)) [
  | inr b ↦ ground arith
  | inl b ↦ elim (Option-cases (find_request (is_request id) st.prune_requests)) [
    | inl e ↦ ground arith
    | inr (r, e) ↦
        mark_batch_again id (path ∷ paths) result later
          (mark_batch id (path ∷ paths) result now st).1
          (subst (Done id (path ∷ paths)) (sym (marked r b e))
            (mark_paths-Done r.profile_id id result now (path ∷ paths) (first r) b))
  ]
]
  where
    first : PruneRequest → Marking
    first r = record { targets = st.prune_targets; manifest = st.manifest; changed = 0 }

    marked :
        (r : PruneRequest)
        → is_terminal result ≡ true
        → find_request (is_request id) st.prune_requests ≡ some r
        → (mark_batch id (path ∷ paths) result now st).1.prune_targets
          ≡ (mark_paths r.profile_id id result now (path ∷ paths) (first r)).targets
    marked r b e = rw (b, e) refl
