-- ===== src/Worker/Failures.antt =====
-- What the failure of an attempt leaves behind.
use gd_sync_harness.Prelude.{
  ℕ, pos, String, ◌≡◌, ◌≢◌, ◌⊎◌, refl, ap, true, false, none, some, inl, inr, arith, Option-cases,
}
use gd_sync_harness.Db.Schema.{Profile, SyncRun, terminal}
use gd_sync_harness.Db.Ledger.{Store}
use gd_sync_harness.Sync.Claim.{claimed, claim_run}
use gd_sync_harness.Sync.Retrying.{terminal_failure_closes}
use gd_sync_harness.Worker.{ExecError, ValidationError, classify_error, exit_class}
use gd_sync_harness.Worker.Attempt.{Inputs, Outcome, failure, commit_failure, execute_attempt}
use gd_sync_harness.Worker.Rows.{HasRow}
use gd_sync_harness.Worker.Ending.{attempt_ends, failed, succeeded}

-- The failures that another attempt does not mend: more deletions than the limit, an ownership that
-- is invalid for good, and the exit codes of rclone for a wrong use and for fatal errors.
pub data Permanent (e : ExecError) : Type 0 where
  over_budget :
      e.canceled ≡ false → e.is_source_unstable ≡ false → e.is_budget_exceeded ≡ true → Permanent e
  invalid_ownership :
      e.canceled ≡ false
      → e.is_source_unstable ≡ false
      → e.is_budget_exceeded ≡ false
      → (v : ValidationError) → e.ownership ≡ some v
      → v.temporary ≡ false
      → Permanent e
  fatal_exit :
      e.canceled ≡ false
      → e.is_source_unstable ≡ false
      → e.is_budget_exceeded ≡ false
      → e.ownership ≡ none
      → (n : ℕ) → e.exit_code ≡ some (pos n)
      → (n ≡ 2) ⊎ (n ≡ 6) ⊎ (n ≡ 7)
      → Permanent e

fatal-terminal : (n : ℕ) → (n ≡ 2) ⊎ (n ≡ 6) ⊎ (n ≡ 7) → (exit_class (pos n)).1 ≡ terminal
unfolding exit_class
fatal-terminal n h = ground arith

Permanent-terminal :
    (e : ExecError) (code : String)
    → Permanent e
    → (classify_error e code).classification ≡ terminal
unfolding classify_error
Permanent-terminal e code (over_budget a b c) = rw (a, b, c) refl
Permanent-terminal e code (invalid_ownership a b c v o t) = ground (arith, a, b, c, o, t)
Permanent-terminal e code (fatal_exit a b c o n x h) =
    ground (arith, a, b, c, o, x, fatal-terminal n h)

module _ (p : String) (pr : Profile) (run : SyncRun) (i : Inputs) where
  ended_as :
      (x e : ExecError) (code : String) (before : Store) (r : Store × Outcome)
      → r ≡ commit_failure p pr run i x code before
      → r.1 ≡ failure e
      → x ≡ e
  unfolding commit_failure
  ended_as x e code before r eq h = ground (arith, ap (λ v. v.1) eq)

  -- An attempt that fails for good is not tried again: after an attempt whose failure is permanent no
  -- claim starts another one, at any time, until a transaction opens the gate.
  pub execute_attempt-closes :
      (st : Store) (e : ExecError)
      → HasRow p st.db
      → (execute_attempt p pr run i st).1 ≡ failure e
      → Permanent e
      → (id : String) (now : ℕ) (r : SyncRun)
      → (claim_run p id now (execute_attempt p pr run i st).0.db).0 ≢ claimed r
  unfolding commit_failure
  execute_attempt-closes st e row h permanent id now r = elim (attempt_ends p pr run i st row) [
    | failed x code before kept eq ↦
        let same = ended_as x e code before (execute_attempt p pr run i st) eq h in
        elim (Option-cases (before.db.sync_state p)) [
          | inl n ↦ ground arith
          | inr (s, k) ↦ rw eq (
              terminal_failure_closes p run.id (classify_error x code) i.failed_at_ns i.jitter
                before.db s k (inl (rw same (Permanent-terminal e code permanent))) id now r)
        ]
    | succeeded t entries before kept eq ↦ ground (arith, ap (λ v. v.1) eq)
  ]
