-- ===== src/Worker.antt =====
-- The worker: internal/cli/worker.go. An error of an execution is what `errors.Is` and `errors.As`
-- find in it.
pub mod Attempt
pub mod Fast
pub mod PrunePass
pub mod DerivedPass
pub mod Rows
pub mod Ending
pub mod Released
pub mod Guarded
pub mod Failures
use gd_sync_harness.Prelude.{
  ℕ, zero, suc, ◌+◌, ◌/◌, ◌%◌, ℤ, pos, negsuc, String, Bool, true, false, not, ◌&&◌, ◌||◌, ◌⊎◌, inl,
  inr, Option, none, some, List, [], ◌∷◌, str_eq, ltb, ◌==◌, is_some, if◌then◌else◌,
}
use Prim.Native.String.{◌++◌ as concat}
use gd_sync_harness.Db.Schema.{
  Db, Profile, RetryClass, retryable, retryable_limited, terminal, Result, ok, err, not_found,
}
use gd_sync_harness.Sync.Commit.{RunFailure}

-- sidecar.ValidationError
pub record ValidationError : Type 0 where
  pub code : String
  pub temporary : Bool

-- What classifyError asks of an error.
pub record ExecError : Type 0 where
  pub canceled : Bool
  pub is_source_unstable : Bool
  pub is_budget_exceeded : Bool
  pub ownership : Option ValidationError
  pub exit_code : Option ℤ
  pub message : String

abbrev digit : ℕ → String
digit n =
    if n == 0
    then "0"
    else if n == 1
    then "1"
    else if n == 2
    then "2"
    else if n == 3
    then "3"
    else if n == 4
    then "4"
    else if n == 5
    then "5"
    else if n == 6
    then "6"
    else if n == 7
    then "7"
    else if n == 8
    then "8"
    else "9"

-- The decimal digits, on as much fuel as there are digits.
pub digits : ℕ → ℕ → String
digits zero n = ""
digits (suc fuel) n =
    let high = digits fuel (n / 10) in if ltb n 10 then digit n else concat high (digit (n % 10))

-- %d
abbrev decimal : ℤ → String
decimal (pos n) = digits (suc n) n
decimal (negsuc n) = concat "-" (digits (suc (suc n)) (suc n))

abbrev exit_name : ℤ → String
exit_name c = concat "rclone_exit_" (decimal c)

-- The switch on the exit code of rclone: the code of the failure and its class.
unfoldable pub exit_class : ℤ → String × RetryClass
exit_class (negsuc n) = (exit_name (negsuc n), retryable_limited)
exit_class (pos n) =
    if n == 5
    then ("rclone_temporary", retryable)
    else if n == 2 || n == 6 || n == 7
    then (exit_name (pos n), terminal)
    else if n == 1
    then ("rclone_uncategorized", retryable_limited)
    else (exit_name (pos n), retryable_limited)

abbrev pub failing : ExecError → String → RetryClass → RunFailure
failing e code class = record { code = code; classification = class; message = e.message }

-- classifyError
unfoldable pub classify_error : ExecError → String → RunFailure
unfolding exit_class
classify_error e code =
    if e.canceled
    then failing e "context_canceled" retryable
    else if e.is_source_unstable
    then failing e "source_unstable" retryable
    else if e.is_budget_exceeded
    then failing e "delete_budget_exceeded" terminal
    else (elim e.ownership [
      | some v ↦ failing e v.code (if v.temporary then retryable else terminal)
      | none ↦ elim e.exit_code [
        | some c ↦ failing e (exit_class c).0 (exit_class c).1
        | none ↦ failing e code terminal
      ]
    ])

-- activeProfilesFor, on the rows that ListProfiles gives; an empty `only` stands for all
unfoldable pub active_profiles_for : String → List (String × Profile) → List (String × Profile)
active_profiles_for only [] = []
active_profiles_for only ((id, pr) ∷ rows) =
    let rest = active_profiles_for only rows in
    if pr.tombstoned
      || (not (str_eq only "") && not (str_eq id only))
      || not pr.enabled
      || is_some pr.deletion_requested_at
    then rest
    else (id, pr) ∷ rest

pub data LoadError : Type 0 where
  missing not_runnable no_snapshot : LoadError

-- loadOwnedExecutionState: the reloaded profile, or why there is none. Whether GetCommittedSnapshot
-- finds a snapshot is an argument.
unfoldable pub load_owned : String → Bool → Db → Profile ⊎ LoadError
load_owned p has_snapshot db = elim (db.profiles p) [
  | none ↦ inr missing
  | some pr ↦
      if pr.tombstoned || not pr.enabled || is_some pr.deletion_requested_at
      then inr not_runnable
      else if has_snapshot
      then inl pr
      else inr no_snapshot
]
