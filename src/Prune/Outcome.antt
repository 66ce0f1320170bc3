-- ===== src/Prune/Outcome.antt =====
-- internal/state/prune.go: the outcomes of the targets of a request, and its end.
use gd_sync_harness.Prelude.{
  ℕ, ◌+◌, String, Bool, ◌&&◌, Option, none, some, List, [], ◌∷◌, str_eq, ltb, if◌then◌else◌,
}
use gd_sync_harness.Db.Table.{delete_where, update_where, select_where, exists_where}
use gd_sync_harness.Db.Schema.{Result, ok, err, not_found}
use gd_sync_harness.Db.Ledger.{
  Store, ManifestEntry, PruneRequest, PruneTarget, TargetState, retrying, completed, failed,
  deleted, missing, is_suppressed,
}
use gd_sync_harness.Manifest.{entry_at}
use gd_sync_harness.Prune.{is_request, find_request, set_request, is_deleted}

abbrev pub target_at : String → String → PruneTarget → Bool
target_at id path t = str_eq t.request_id id && str_eq t.rel_path path

abbrev pub mark : TargetState → Option String → ℕ → PruneTarget → PruneTarget
mark result message now t = record t {
  state = result;
  attempt_count = if ltb 0 t.attempt_count then t.attempt_count + 1 else 1;
  last_error = message;
  updated_at = now;
}

-- The counter that an outcome raises.
abbrev pub raise_count : TargetState → ℕ → ℕ → PruneRequest → PruneRequest
raise_count deleted n now r = record r { deleted_count = r.deleted_count + n; updated_at = now }
raise_count missing n now r = record r { missing_count = r.missing_count + n; updated_at = now }
raise_count TargetState.pending n now r = r

-- MarkPruneTargetResult; an empty `message` clears the error
unfoldable pub mark_target_result :
    String → String → TargetState → String → ℕ → Store → Result (Unit {0}) × Store
mark_target_result id path result message now st =
    let test = target_at id path in
    let stored : Option String = if str_eq message "" then none else some message in
    if exists_where test st.prune_targets
    then (
      ok tt,
      record (set_request id (raise_count result 1 now) st) {
        prune_targets = update_where test (mark result stored now) st.prune_targets;
      },
    )
    else (err not_found, st)

-- The loop of CommitPruneComplete over the targets.
unfoldable pub drop_deleted : String → List PruneTarget → List ManifestEntry → List ManifestEntry
drop_deleted p [] es = es
drop_deleted p (t ∷ ts) es = drop_deleted p ts (
    if is_deleted t.state
    then delete_where (λ e. entry_at p t.rel_path e && is_suppressed e.state) es
    else es)

-- CommitPruneComplete
unfoldable pub commit_complete : String → ℕ → Store → Result (Unit {0}) × Store
unfolding find_request drop_deleted
commit_complete id now st = elim (find_request (is_request id) st.prune_requests) [
  | none ↦ (err not_found, st)
  | some r ↦
      let targets = select_where (λ t. str_eq t.request_id id) st.prune_targets in
      let st1 =
        set_request id
          (λ s. record s { state = completed; completed_at = some now; updated_at = now }) st in
      (
        ok tt,
        record st1 {
          manifest = drop_deleted r.profile_id targets st.manifest;
          prune_targets = delete_where (λ t. str_eq t.request_id id) st.prune_targets;
        },
      )
]

-- SetPruneRetrying
unfoldable pub set_retrying : String → String → ℕ → Store → Store
set_retrying id message now st =
    set_request id (λ r. record r { state = retrying; last_error = some message; updated_at = now })
      st

-- SetPruneFailed
unfoldable pub set_failed : String → String → ℕ → Store → Store
set_failed id message now st =
    set_request id (λ r. record r { state = failed; last_error = some message; updated_at = now })
      st
