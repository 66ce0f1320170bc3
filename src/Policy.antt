-- ===== src/Policy.antt =====
-- CommitIgnoreSnapshot and the marks of a refresh, of internal/state/policy.go. The files of a
-- snapshot are not modelled: `new_hash` is their content hash.
pub mod Debt
use gd_sync_harness.Prelude.{
  ℕ, suc, max, String, ◌≡◌, ◌<◌, refl, Bool, true, false, not, ◌&&◌, ◌||◌, Option, none, some, List,
  [], ◌∷◌, str_eq, is_some, get_or, if◌then◌else◌, arith, eq_refl,
}
use mathlib.Core.Option
use gd_sync_harness.Db.Table.{update_where, count_where}
use gd_sync_harness.Db.Schema.{
  Db, Profile, ProfileSyncState, Runtime, CommittedPolicy, PolicySource, gitignore, legacy_migrated,
  RefreshState, Result, ok, err, not_found, id_tombstoned, legacy_drop_required,
}
use gd_sync_harness.Db.Ledger.{Store, PruneRequest, stale}
use gd_sync_harness.Sync.{has_debt, update_sync, update_runtime, owing_state, unless_error}
use gd_sync_harness.Prune.{request_in, is_preview, is_pending, set_state}

-- PolicyCommitResult
pub record PolicyCommitResult : Type 0 where
  pub changed : Bool
  pub policy_hash : String
  pub generation : ℕ
  pub refresh_state : RefreshState

abbrev pub is_legacy : PolicySource → Bool
is_legacy legacy_migrated = true
is_legacy gitignore = false

-- A generation above every one that was given out.
unfoldable pub next_generation : Option CommittedPolicy → Runtime → ProfileSyncState → ℕ
next_generation cur r s = suc (
    max
      (max (max (get_or 0 (Option.map (λ c. c.committed_generation) cur)) r.source_generation)
        s.desired_generation)
      (get_or 0 s.last_success_generation))

unfoldable pub owe_policy : ℕ → ProfileSyncState → ProfileSyncState
owe_policy generation s = record s {
  desired_generation = max s.desired_generation generation;
  pending_manual_generation = Option.map (λ g. generation) s.pending_manual_generation;
  state = unless_error s.state (owing_state s);
}

-- The prune requests that a policy with another hash makes stale.
abbrev pub outdated : String → String → PruneRequest → Bool
outdated p new_hash r =
    request_in p (λ s. is_preview s || is_pending s) r && not (str_eq r.policy_hash new_hash)

-- The writes of a commit that changes the policy.
unfoldable pub commit_writes : String → String → ℕ → ℕ → Store → Store
unfolding owe_policy
commit_writes p new_hash generation now st =
    let db1 = update_runtime p (λ r. record r { source_generation = generation }) st.db in
    let db2 : Db = record db1 {
      policy = λ j.
          if str_eq p j
          then some (record {
            policy_source = gitignore;
            policy_hash = new_hash;
            committed_generation = generation;
            committed_at = now;
            refresh_state = RefreshState.pending;
            refreshed_policy_hash = none;
          })
          else db1.policy j;
    } in
    record st {
      db = update_sync p (owe_policy generation) db2;
      prune_requests = update_where (outdated p new_hash) (set_state stale now) st.prune_requests;
    }

abbrev pub same_policy : String → Option CommittedPolicy → Bool
same_policy new_hash none = false
same_policy new_hash (some c) = str_eq c.policy_hash new_hash

abbrev pub needs_consent : Option CommittedPolicy → Bool
needs_consent none = false
needs_consent (some c) = is_legacy c.policy_source

-- The part of CommitIgnoreSnapshot behind the checks of the profile and the policy.
unfoldable pub commit_changed : String → String → ℕ → Store → Result PolicyCommitResult × Store
unfolding commit_writes next_generation
commit_changed p new_hash now st = elim (st.db.runtime p) [
  | none ↦ (err not_found, st)
  | some r ↦ elim (st.db.sync_state p) [
    | none ↦ (err not_found, st)
    | some s ↦
        let generation = next_generation (st.db.policy p) r s in
        (
          ok (record {
            changed = true;
            policy_hash = new_hash;
            generation = generation;
            refresh_state = RefreshState.pending;
          }),
          commit_writes p new_hash generation now st,
        )
  ]
]

-- CommitIgnoreSnapshot
unfoldable pub commit_ignore_snapshot :
    String → String → Bool → ℕ → Store → Result PolicyCommitResult × Store
unfolding commit_changed
commit_ignore_snapshot p new_hash accept_legacy_drop now st = elim (st.db.profiles p) [
  | none ↦ (err not_found, st)
  | some pr ↦
      let changed = commit_changed p new_hash now st in
      if pr.tombstoned
      then (err id_tombstoned, st)
      else if same_policy new_hash (st.db.policy p)
      then (
        ok (record {
          changed = false;
          policy_hash = new_hash;
          generation = 0;
          refresh_state = RefreshState.ready;
        }),
        st,
      )
      else if needs_consent (st.db.policy p) && not accept_legacy_drop
      then (err legacy_drop_required, st)
      else changed
]

abbrev pub mark_refresh : String → String → (CommittedPolicy → CommittedPolicy) → Db → Db
mark_refresh p policy_hash f db = record db {
  policy = λ j.
      if str_eq p j
      then Option.map (λ c. if str_eq c.policy_hash policy_hash then f c else c) (db.policy j)
      else db.policy j;
}

-- MarkPolicyRefreshRunning
unfoldable pub mark_policy_refresh_running : String → String → Db → Db
mark_policy_refresh_running p policy_hash db =
    mark_refresh p policy_hash (λ c. record c { refresh_state = RefreshState.running }) db

-- MarkPolicyRefreshReady
unfoldable pub mark_policy_refresh_ready : String → String → Db → Db
mark_policy_refresh_ready p policy_hash db =
    mark_refresh p policy_hash
      (λ c. record c {
        refresh_state = RefreshState.ready;
        refreshed_policy_hash = some policy_hash;
      })
      db

-- MarkPolicyRefreshError
unfoldable pub mark_policy_refresh_error : String → String → Db → Db
mark_policy_refresh_error p policy_hash db =
    mark_refresh p policy_hash (λ c. record c { refresh_state = RefreshState.error }) db
