-- ===== src/Prune/Batch.antt =====
-- internal/state/prune_batch.go: the outcome of a batch of targets, in one transaction.
use gd_sync_harness.Prelude.{
  ℕ, ◌+◌, String, Bool, not, ◌&&◌, ◌||◌, none, some, List, [], ◌∷◌, ltb, if◌then◌else◌,
}
use gd_sync_harness.Db.Table.{delete_where, update_where, count_where}
use gd_sync_harness.Db.Schema.{Result, ok, err, not_found, bad_result}
use gd_sync_harness.Db.Ledger.{Store, ManifestEntry, PruneTarget, TargetState, is_suppressed}
use gd_sync_harness.Manifest.{entry_at}
use gd_sync_harness.Prune.{is_request, set_request, is_missing, is_deleted, find_request}
use gd_sync_harness.Prune.Outcome.{target_at, raise_count}

abbrev pub is_terminal : TargetState → Bool
is_terminal s = is_deleted s || is_missing s

-- The rows that the UPDATE of one path changes.
abbrev pub unmarked : String → String → PruneTarget → Bool
unmarked id path t = target_at id path t && not (is_terminal t.state)

abbrev pub mark_terminal : TargetState → ℕ → PruneTarget → PruneTarget
mark_terminal result now t = record t {
  state = result;
  attempt_count = t.attempt_count + 1;
  last_error = none;
  updated_at = now;
}

-- The targets, the ledger and the number of changed rows, during the loop.
pub record Marking : Type 0 where
  pub targets : List PruneTarget
  pub manifest : List ManifestEntry
  pub changed : ℕ

unfoldable pub mark_paths : String → String → TargetState → ℕ → List String → Marking → Marking
mark_paths p id result now [] m = m
mark_paths p id result now (path ∷ paths) m =
    let n = count_where (unmarked id path) m.targets in
    mark_paths p id result now paths (record {
      targets = update_where (unmarked id path) (mark_terminal result now) m.targets;
      manifest =
          if is_missing result && ltb 0 n
          then delete_where (λ e. entry_at p path e && is_suppressed e.state) m.manifest
          else m.manifest;
      changed = m.changed + n;
    })

-- MarkPruneTargetsResultBatch
unfoldable pub mark_batch :
    String → List String → TargetState → ℕ → Store → Result (Unit {0}) × Store
unfolding mark_paths
mark_batch id [] result now st = (ok tt, st)
mark_batch id (path ∷ paths) result now st =
    if not (is_terminal result)
    then (err bad_result, st)
    else (elim (find_request (is_request id) st.prune_requests) [
      | none ↦ (err not_found, st)
      | some r ↦
          let m =
            mark_paths r.profile_id id result now (path ∷ paths)
              (record { targets = st.prune_targets; manifest = st.manifest; changed = 0 }) in
          (
            ok tt,
            record (if ltb 0 m.changed
                then set_request id (raise_count result m.changed now) st
                else st) { prune_targets = m.targets; manifest = m.manifest },
          )
    ])
