-- ===== src/Machine/Policies.antt =====
-- The commit of a policy, and the marks of its refresh, keep every profile well formed and the queue
-- of pending events sound.
use gd_sync_harness.Prelude.{
  ℕ, ◌≤◌, String, ◌≡◌, ◌⊎◌, refl, sym, subst, Bool, not, ◌&&◌, inl, inr, some, arith, eq_iff,
  str_eq, Bool-cases, Option-cases,
}
use gd_sync_harness.Db.Table.{Table, update_row}
use gd_sync_harness.Db.Schema.{Db, Runtime, ProfileSyncState}
use gd_sync_harness.Db.Ledger.{Store}
use gd_sync_harness.Sync.{update_sync}
use gd_sync_harness.Sync.Invariant.{IsSound}
use gd_sync_harness.Policy.{
  commit_ignore_snapshot, commit_changed, commit_writes, owe_policy, next_generation, same_policy,
  needs_consent,
}
use gd_sync_harness.Machine.Owned.{WellFormed, Raises, WellFormed-raise, WellFormed-same}
use gd_sync_harness.Machine.Queue.{QueueOk, Grows, QueueOk-grow}
use gd_sync_harness.Machine.{policy_commit, bare}

owe_policy-IsSound : (n : ℕ) (s : ProfileSyncState) → IsSound s → IsSound (owe_policy n s)
unfolding owe_policy
owe_policy-IsSound n s h = ground arith

owe_policy-Raises : (n : ℕ) → Raises (owe_policy n)
unfolding owe_policy
owe_policy-Raises n = record {
  sound = owe_policy-IsSound n;
  current = λ s. refl;
  desired = λ s. omega arith;
}

-- A commit leaves the store as it is, or writes a generation above the source's.
pub commit-cases :
    (p h : String) (accept : Bool) (now : ℕ) (st : Store)
    → ((commit_ignore_snapshot p h accept now st).1 ≡ st)
      ⊎ ((r : Runtime) × (n : ℕ) × (st.db.runtime p ≡ some r)
          × (r.source_generation ≤ n)
          × ((commit_ignore_snapshot p h accept now st).1 ≡ commit_writes p h n now st))
unfolding commit_ignore_snapshot commit_changed
commit-cases p h accept now st = elim (Option-cases (st.db.profiles p)) [
  | inl e ↦ inl (ground arith)
  | inr (pr, e) ↦ elim (Bool-cases pr.tombstoned) [
    | inl b ↦ inl (ground arith)
    | inr b ↦ elim (Bool-cases (same_policy h (st.db.policy p))) [
      | inl b2 ↦ inl (ground arith)
      | inr b2 ↦ elim (Bool-cases (needs_consent (st.db.policy p) && not accept)) [
        | inl b3 ↦ inl (ground arith)
        | inr b3 ↦ elim (Option-cases (st.db.runtime p)) [
          | inl e2 ↦ inl (ground arith)
          | inr (r, e2) ↦ elim (Option-cases (st.db.sync_state p)) [
            | inl e3 ↦ inl (ground arith)
            | inr (s, e3) ↦ inr (
              r,
              next_generation (st.db.policy p) r s,
              e2,
              unfold next_generation in omega arith,
              ground arith,
            )
          ]
        ]
      ]
    ]
  ]
]

pub policy-WellFormed :
    (p q h : String) (accept : Bool) (now : ℕ) (db : Db)
    → WellFormed q db
    → WellFormed q (policy_commit p h accept now db)
unfolding commit_writes
policy-WellFormed p q h accept now db w = elim (commit-cases p h accept now (bare db)) [
  | inl same ↦ subst (λ st. WellFormed q st.db) (sym same) w
  | inr (r, n, row, above, wrote) ↦
      subst (λ st. WellFormed q st.db) (sym wrote)
        (WellFormed-same q (update_sync p (owe_policy n) db) (commit_writes p h n now (bare db)).db
          refl refl (WellFormed-raise (owe_policy n) p q db (owe_policy-Raises n) w))
]

-- A SET that raises the source generation of the row that is there.
Grows-set :
    (p : String) (n : ℕ) (r : Runtime) (rt : Table Runtime)
    → rt p ≡ some r
    → r.source_generation ≤ n
    → Grows rt (update_row p (λ v. record v { source_generation = n }) rt)
Grows-set p n r rt row above j v e = elim (Bool-cases (str_eq p j)) [
  | inl same ↦
      (record v { source_generation = n }, rw (same, e) refl, ground (arith, eq_iff p j, row, e))
  | inr other ↦ (v, rw other e, omega arith)
]

pub policy-QueueOk :
    (p h : String) (accept : Bool) (now : ℕ) (db : Db)
    → QueueOk db
    → QueueOk (policy_commit p h accept now db)
unfolding commit_writes
policy-QueueOk p h accept now db w = elim (commit-cases p h accept now (bare db)) [
  | inl same ↦ subst (λ st. QueueOk st.db) (sym same) w
  | inr (r, n, row, above, wrote) ↦
      subst (λ st. QueueOk st.db) (sym wrote)
        (QueueOk-grow db (commit_writes p h n now (bare db)).db
          (Grows-set p n r db.runtime row above) refl w)
]

-- The step of the machine is the commit on any store: it does not read the other tables.
policy_commit-reads :
    (p h : String) (accept : Bool) (now : ℕ) (st : Store)
    → (commit_ignore_snapshot p h accept now st).1.db ≡ policy_commit p h accept now st.db
unfolding commit_ignore_snapshot commit_changed commit_writes
policy_commit-reads p h accept now st = ground arith
