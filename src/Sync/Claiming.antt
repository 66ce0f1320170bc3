-- ===== src/Sync/Claiming.antt =====
-- The outcomes of ClaimRun: it changes nothing, or it starts the attempt that it returns.
use gd_sync_harness.Prelude.{
  ℕ, String, ◌≡◌, ◌≢◌, false, ◌⊎◌, inl, inr, none, some, ◌++◌, ◌∷◌, [], str_eq, arith, Bool-cases,
  Option-cases,
}
use gd_sync_harness.Db.Table.{exists_where}
use gd_sync_harness.Db.Schema.{Db, Profile, ProfileSyncState, SyncRun}
use gd_sync_harness.Sync.{update_sync}
use gd_sync_harness.Sync.Claim.{Claim, claimed, refusal, new_run, consume, take, claim_run}

-- The database behind a claim that starts an attempt.
abbrev pub started : String → String → Profile → ProfileSyncState → ℕ → Db → Db
started p id pr s now db =
    update_sync p (λ t. take id now (consume t))
      (record db { sync_runs = db.sync_runs ++ new_run p id pr s now ∷ [] })

pub record Started (p id : String) (now : ℕ) (db : Db) (pr : Profile) (s : ProfileSyncState)
    : Type 0 where
  pub profile : db.profiles p ≡ some pr
  pub alive : pr.tombstoned ≡ false
  pub row : db.sync_state p ≡ some s
  pub free : refusal pr s now ≡ none
  pub fresh : exists_where (λ r. str_eq r.id id) db.sync_runs ≡ false
  pub result : claim_run p id now db ≡ (claimed (new_run p id pr s now), started p id pr s now db)

abbrev pub Unchanged : Claim × Db → Db → Type 0
Unchanged c db = (c.1 ≡ db) × ((r : SyncRun) → c.0 ≢ claimed r)

pub claim_run-cases :
    (p id : String) (now : ℕ) (db : Db)
    → Unchanged (claim_run p id now db) db
      ⊎ ((pr : Profile) × (s : ProfileSyncState) × Started p id now db pr s)
unfolding claim_run
claim_run-cases p id now db = elim (Option-cases (db.profiles p)) [
  | inl e ↦ inl (ground arith, λ r. ground arith)
  | inr (pr, e) ↦ elim (Bool-cases pr.tombstoned) [
    | inl dead ↦ inl (ground arith, λ r. ground arith)
    | inr alive ↦ elim (Option-cases (db.sync_state p)) [
      | inl no_row ↦ inl (ground arith, λ r. ground arith)
      | inr (s, row) ↦ elim (Option-cases (refusal pr s now)) [
        | inr (why, e2) ↦ inl (ground arith, λ r. ground arith)
        | inl free ↦ elim (Bool-cases (exists_where (λ r. str_eq r.id id) db.sync_runs)) [
          | inl taken ↦ inl (ground arith, λ r. ground arith)
          | inr fresh ↦ inr (
            pr,
            s,
            record {
              profile = e;
              alive = alive;
              row = row;
              free = free;
              fresh = fresh;
              result = ground arith;
            },
          )
        ]
      ]
    ]
  ]
]
