-- ===== src/Manifest.antt =====
-- The managed ledger: internal/state/manifest.go, and the refresh against a committed policy of
-- internal/state/policy.go. The matcher of a policy is a third-party one: a parameter.
pub mod Refresh
pub mod Evidence
use gd_sync_harness.Prelude.{
  ℕ, String, Bool, true, false, not, ◌&&◌, ◌||◌, Option, none, some, List, [], ◌∷◌, ◌++◌, map,
  str_eq, elem, get_or, if◌then◌else◌,
}
use gd_sync_harness.Db.Table.{delete_where, update_where, select_where, count_where, upsert_where}
use gd_sync_harness.Db.Schema.{PendingEvent}
use gd_sync_harness.Events.{is_of, is_destructive}
use gd_sync_harness.Db.Ledger.{
  ManifestEntry, EntryState, active, suppressed, protected, is_active, is_suppressed, is_protected,
}

abbrev pub entry_at : String → String → ManifestEntry → Bool
entry_at p path e = str_eq e.profile_id p && str_eq e.rel_path path

abbrev pub in_state : String → (EntryState → Bool) → ManifestEntry → Bool
in_state p test e = str_eq e.profile_id p && test e.state

-- The columns that every upsert takes from the new row; a suppressed row keeps its provenance.
abbrev pub refreshed : ManifestEntry → ManifestEntry → ManifestEntry
refreshed new e = record e {
  size = new.size;
  mod_time = new.mod_time;
  hash = new.hash;
  suppressed_policy_hash = if is_suppressed e.state then e.suppressed_policy_hash else none;
  suppressed_generation = if is_suppressed e.state then e.suppressed_generation else none;
}

-- ManifestUpsert; `state` is none where the caller left it empty. The column is never empty, so the
-- state of a row that exists is kept.
unfoldable pub manifest_upsert :
    ManifestEntry → Option EntryState → List ManifestEntry → List ManifestEntry
manifest_upsert new state es =
    upsert_where (entry_at new.profile_id new.rel_path)
      (record new {
        state = get_or active state;
        suppressed_policy_hash = none;
        suppressed_generation = none;
      })
      (refreshed new) es

-- ManifestCounts
unfoldable pub manifest_counts : String → List ManifestEntry → ℕ × ℕ
manifest_counts p es =
    (count_where (in_state p is_active) es, count_where (in_state p is_suppressed) es)

-- ManifestDelete
unfoldable pub manifest_delete : String → String → List ManifestEntry → List ManifestEntry
manifest_delete p path es = delete_where (entry_at p path) es

abbrev pub suppress : String → ℕ → ManifestEntry → ManifestEntry
suppress policy_hash generation e = record e {
  state = suppressed;
  suppressed_policy_hash = some policy_hash;
  suppressed_generation = some generation;
}

abbrev pub reactivate : ManifestEntry → ManifestEntry
reactivate e = record e {
  state = active;
  suppressed_policy_hash = none;
  suppressed_generation = none;
}

-- ManifestMarkSuppressed
unfoldable pub manifest_mark_suppressed :
    String → String → String → ℕ → List ManifestEntry → List ManifestEntry
manifest_mark_suppressed p path policy_hash generation es =
    update_where (λ e. entry_at p path e && not (is_protected e.state))
      (suppress policy_hash generation) es

-- ManifestReactivate
unfoldable pub manifest_reactivate : String → String → List ManifestEntry → List ManifestEntry
manifest_reactivate p path es =
    update_where (λ e. entry_at p path e && not (is_protected e.state)) reactivate es

-- The upsert of ManifestApply: what is not suppressed becomes active.
abbrev pub desire : ManifestEntry → ManifestEntry → ManifestEntry
desire new e = record (refreshed new e) {
  state = if is_suppressed e.state then suppressed else active;
}

unfoldable pub desire_all : List ManifestEntry → List ManifestEntry → List ManifestEntry
desire_all [] es = es
desire_all (new ∷ news) es = desire_all news (
    upsert_where (entry_at new.profile_id new.rel_path)
      (record new { state = active; suppressed_policy_hash = none; suppressed_generation = none })
      (desire new) es)

-- ManifestApply
unfoldable pub manifest_apply :
    String → List ManifestEntry → List ManifestEntry → List ManifestEntry
unfolding desire_all
manifest_apply p news es =
    let desired = map (λ e. e.rel_path) news in
    delete_where (λ e. in_state p is_active e && not (elem e.rel_path desired)) (desire_all news es)

-- The loop of ApplyManagedRefresh over the paths of the scan.
unfoldable pub reactivate_all : String → List String → List ManifestEntry → List ManifestEntry
reactivate_all p [] es = es
reactivate_all p (path ∷ paths) es =
    reactivate_all p paths
      (update_where (λ e. entry_at p path e && is_suppressed e.state) reactivate es)

-- ApplyManagedRefresh
unfoldable pub apply_managed_refresh :
    String → String → ℕ → List String → List String → List ManifestEntry → List ManifestEntry
unfolding reactivate_all
apply_managed_refresh p policy_hash generation active_paths proven es =
    reactivate_all p active_paths (
      update_where (λ e. in_state p is_active e && not (elem e.rel_path (active_paths ++ proven)))
        (suppress policy_hash generation) es)

-- The active paths of the ledger that the scan did not find.
unfoldable pub disappeared : String → List String → List ManifestEntry → List String
disappeared p active_paths es =
    map (λ e. e.rel_path)
      (select_where (λ e. in_state p is_active e && not (elem e.rel_path active_paths)) es)

-- The evidence of one queued event: it was seen under another policy, or the policy keeps its path.
abbrev pub proves : String → (String → Bool) → List String → PendingEvent → Bool
proves committed_hash excluded gone e =
    is_destructive e.event_kind
    && elem e.path gone
    && e.policy_context_known
    && (elim e.observed_policy_hash [
      | none ↦ false
      | some h ↦ not (str_eq h committed_hash) || not (excluded e.path)
    ])

-- The paths of a list that the policy does not ignore.
unfoldable pub kept_by : (String → Bool) → List String → List String
kept_by excluded paths = select_where (λ path. not (excluded path)) paths

-- ClassifyDisappearances: the paths that are proven deletions. `excluded` is the matcher of the
-- committed snapshot.
unfoldable pub classify_disappearances :
    String
    → String
    → (String → Bool)
    → List String
    → List PendingEvent
    → List ManifestEntry
    → List String
unfolding disappeared kept_by
classify_disappearances p committed_hash excluded active_paths pending es =
    let gone = disappeared p active_paths es in
    map (λ e. e.path)
      (select_where (λ e. is_of p e && proves committed_hash excluded gone e) pending)
    ++ kept_by excluded gone
