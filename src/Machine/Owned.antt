-- ===== src/Machine/Owned.antt =====
-- The tie between a row's current attempt and the attempts that are marked running.
use gd_sync_harness.Prelude.{
  subst, ℕ, ◌≤◌, String, ◌≡◌, false, inl, inr, Option, none, some, List, [], ◌∷◌, str_eq, eq_iff,
  arith, Bool-cases,
}
use mathlib.Core.Option
use gd_sync_harness.Db.Schema.{Db, ProfileSyncState, SyncRun}
use gd_sync_harness.Sync.{update_sync}
use gd_sync_harness.Sync.Invariant.{IsSound}
use gd_sync_harness.Sync.Runs.{live_runs}

-- The running attempts are the current one, whose target has been asked for.
abbrev pub Owned : Option String → ℕ → List SyncRun → Type 0
Owned none desired rs = rs ≡ []
Owned (some id) desired rs =
    (r : SyncRun) × (rs ≡ r ∷ []) × (r.id ≡ id) × (r.target_generation ≤ desired)

abbrev pub RowOk : Option ProfileSyncState → List SyncRun → Type 0
RowOk none rs = rs ≡ []
RowOk (some s) rs = IsSound s × Owned s.current_run_id s.desired_generation rs

abbrev pub WellFormed : String → Db → Type 0
WellFormed p db = RowOk (db.sync_state p) (live_runs p db.sync_runs)

pub Owned-mono :
    (o : Option String) (m n : ℕ) (rs : List SyncRun) → m ≤ n → Owned o m rs → Owned o n rs
Owned-mono none m n rs h w = w
Owned-mono (some id) m n rs h (r, e, i, t) = (r, e, i, omega arith)

-- A SET that keeps the current attempt and lowers no generation.
pub record Raises (f : ProfileSyncState → ProfileSyncState) : Type 0 where
  pub sound : (s : ProfileSyncState) → IsSound s → IsSound (f s)
  pub current : (s : ProfileSyncState) → (f s).current_run_id ≡ s.current_run_id
  pub desired : (s : ProfileSyncState) → s.desired_generation ≤ (f s).desired_generation

pub RowOk-raise :
    (f : ProfileSyncState → ProfileSyncState) (o : Option ProfileSyncState) (rs : List SyncRun)
    → Raises f
    → RowOk o rs
    → RowOk (Option.map f o) rs
RowOk-raise f none rs k w = w
RowOk-raise f (some s) rs k (h, w) =
    (k.sound s h, rw (k.current s) (Owned-mono _ _ _ _ (k.desired s) w))

-- Such a SET keeps every profile well formed, its own and any other.
pub WellFormed-raise :
    (f : ProfileSyncState → ProfileSyncState) (p q : String) (db : Db)
    → Raises f
    → WellFormed q db
    → WellFormed q (update_sync p f db)
WellFormed-raise f p q db k w = elim (Bool-cases (str_eq p q)) [
  | inl same ↦ rw same (RowOk-raise f (db.sync_state q) _ k w)
  | inr other ↦ rw other w
]

-- Two SETs of one transaction, of which only the second restores the invariant.
pub WellFormed-raise_twice :
    (f g : ProfileSyncState → ProfileSyncState) (p q : String) (db : Db)
    → Raises (λ s. g (f s))
    → WellFormed q db
    → WellFormed q (update_sync p g (update_sync p f db))
WellFormed-raise_twice f g p q db k w = elim (Bool-cases (str_eq p q)) [
  | inl same ↦ rw same (both (db.sync_state q) w)
  | inr other ↦ rw other w
]
  where
    both :
        (o : Option ProfileSyncState)
        → RowOk o (live_runs q db.sync_runs)
        → RowOk (Option.map g (Option.map f o)) (live_runs q db.sync_runs)
    both none w = w
    both (some s) w = RowOk-raise (λ s. g (f s)) (some s) _ k w

-- A transaction on the row of `p` that leaves the rows and the attempts of others alone.
pub record Writes (p : String) (o : Option ProfileSyncState) (db db' : Db) : Type 0 where
  pub row : db'.sync_state p ≡ o
  pub row_ok : RowOk o (live_runs p db'.sync_runs)
  pub others : (q : String) → str_eq p q ≡ false → db'.sync_state q ≡ db.sync_state q
  pub runs :
      (q : String) → str_eq p q ≡ false → live_runs q db'.sync_runs ≡ live_runs q db.sync_runs

pub WellFormed-write :
    (p q : String) (o : Option ProfileSyncState) (db db' : Db)
    → Writes p o db db'
    → WellFormed q db
    → WellFormed q db'
WellFormed-write p q o db db' k w = elim (Bool-cases (str_eq p q)) [
  | inl same ↦ subst (λ j. WellFormed j db') ((eq_iff p q).0 same) (rw k.row k.row_ok)
  | inr other ↦ rw (k.others q other, k.runs q other) w
]

-- A transaction on other tables.
pub WellFormed-same :
    (q : String) (db db' : Db)
    → db'.sync_state q ≡ db.sync_state q
    → db'.sync_runs ≡ db.sync_runs
    → WellFormed q db
    → WellFormed q db'
WellFormed-same q db db' e e' w = rw (e, e') w
