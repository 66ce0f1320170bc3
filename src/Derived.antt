-- ===== src/Derived.antt =====
-- The derived namespace of a profile: internal/state/compiler.go. The compiler records the
-- generations that it built, a desire follows from them, and the worker publishes or purges the
-- remote copy until it is what the desire says.
--
-- A target key is a text in the source, its fields separated by NUL; here it is its fields. The
-- random part of the back-off is an argument, as in Sync/Commit.
pub mod Claim
pub mod Claiming
pub mod Serving
pub mod Gate
pub mod Overlap
use gd_sync_harness.Prelude.{
  ℕ, ◌+◌, String, Bool, true, false, not, ◌&&◌, ◌||◌, Option, none, some, List, [], ◌∷◌, ◌++◌,
  str_eq, ◌==◌, get_or, is_some, if◌then◌else◌,
}
use gd_sync_harness.Db.Table.{Table, update_row, insert_or_ignore, update_where, exists_where}
use gd_sync_harness.Db.Schema.{
  Profile, RetryClass, retryable, retryable_limited, terminal, Result, ok, err, not_found,
  constraint,
}
use gd_sync_harness.Retry.{retry_backoff, limited_retry_backoff}
use gd_sync_harness.Sync.Claim.{is_before}
use gd_sync_harness.Sync.Commit.{stamp, worker_interrupted_code}

-- CompilerRunRunning and its siblings; a derived run has the same states.
pub data RunState : Type 0 where
  running succeeded failed interrupted : RunState

-- local_mode and desired_derived_mode
pub data Mode : Type 0 where
  generation absent : Mode

pub data CleanState : Type 0 where
  idle committing : CleanState

pub data RemoteState : Type 0 where
  unknown holds_generation holds_nothing : RemoteState

pub data DerivedState : Type 0 where
  pending syncing current failed : DerivedState

pub data DerivedKind : Type 0 where
  publish purge : DerivedKind

-- DerivedTargetKey
pub record TargetKey : Type 0 where
  pub mode : Mode
  pub generation_id : String
  pub revision : ℕ
  pub binding : String

-- compiler_profile_state
pub record CompilerState : Type 0 where
  pub last_success_generation_id : Option String
  pub last_success_at : Option ℕ
  pub last_source_snapshot_id : Option String
  pub last_policy_hash : Option String
  pub last_eligibility_contract_hash : Option String
  pub local_mode : Mode
  pub local_clean_state : CleanState
  pub local_clean_operation_id : Option String
  pub desired_derived_mode : Mode
  pub desired_derived_generation_id : Option String
  pub desired_derived_revision : ℕ
  pub current_remote_binding : Option String
  pub remote_published_generation_id : Option String
  pub remote_published_binding : Option String
  pub remote_state : RemoteState
  pub remote_state_binding : Option String
  pub derived_state : DerivedState
  pub active_publish_generation_id : Option String
  pub retry_target_key : Option TargetKey
  pub retry_classification : Option RetryClass
  pub consecutive_failures : ℕ
  pub limited_failures : ℕ
  pub next_retry_at : Option ℕ
  pub terminal_error_code : Option String
  pub last_derived_error : Option String
  pub last_derived_success_at : Option ℕ

-- compiler_runs
pub record CompilerRun : Type 0 where
  pub id : String
  pub profile_id : String
  pub candidate_generation_id : String
  pub started_at : ℕ
  pub completed_at : Option ℕ
  pub status : RunState
  pub source_snapshot_id : Option String
  pub file_count : ℕ
  pub warning_count : ℕ
  pub error : String

-- compiler_derived_runs
pub record DerivedRun : Type 0 where
  pub id : String
  pub profile_id : String
  pub kind : DerivedKind
  pub target_generation_id : Option String
  pub target_binding : String
  pub target_desired_revision : ℕ
  pub status : RunState
  pub phase : String
  pub started_at : ℕ
  pub completed_at : Option ℕ
  pub error_code : String
  pub error_classification : Option RetryClass
  pub error : String

-- The tables that the compiler and the derived lane write, and the profiles that they read.
pub record CompilerDb : Type 0 where
  pub profiles : Table Profile
  pub states : Table CompilerState
  pub compiler_runs : List CompilerRun
  pub derived_runs : List DerivedRun

abbrev pub update_state : String → (CompilerState → CompilerState) → CompilerDb → CompilerDb
update_state p f db = record db { states = update_row p f db.states }

-- The row that the columns' defaults give.
abbrev pub new_state : CompilerState
new_state = record {
  last_success_generation_id = none;
  last_success_at = none;
  last_source_snapshot_id = none;
  last_policy_hash = none;
  last_eligibility_contract_hash = none;
  local_mode = absent;
  local_clean_state = idle;
  local_clean_operation_id = none;
  desired_derived_mode = absent;
  desired_derived_generation_id = none;
  desired_derived_revision = 0;
  current_remote_binding = none;
  remote_published_generation_id = none;
  remote_published_binding = none;
  remote_state = unknown;
  remote_state_binding = none;
  derived_state = pending;
  active_publish_generation_id = none;
  retry_target_key = none;
  retry_classification = none;
  consecutive_failures = 0;
  limited_failures = 0;
  next_retry_at = none;
  terminal_error_code = none;
  last_derived_error = none;
  last_derived_success_at = none;
}

-- EnsureCompilerState
unfoldable pub ensure_compiler_state : String → CompilerDb → CompilerDb
ensure_compiler_state p db = record db { states = insert_or_ignore p new_state db.states }

-- StartCompilerRun
unfoldable pub start_compiler_run :
    String → String → String → ℕ → CompilerDb → Result (Unit {0}) × CompilerDb
unfolding ensure_compiler_state
start_compiler_run p run_id generation_id now db =
    let db1 = ensure_compiler_state p db in
    if exists_where (λ r. str_eq r.id run_id) db1.compiler_runs then (err constraint, db1) else (
      ok tt,
      record db1 {
        compiler_runs =
            db1.compiler_runs
            ++ record {
              id = run_id;
              profile_id = p;
              candidate_generation_id = generation_id;
              started_at = now;
              completed_at = none;
              status = running;
              source_snapshot_id = none;
              file_count = 0;
              warning_count = 0;
              error = "";
            }
              ∷ [];
      },
    )

abbrev pub is_running : RunState → Bool
is_running running = true
is_running _ = false

-- WHERE id = ? AND profile_id = ? AND status = 'running'
abbrev pub is_live_compile : String → String → CompilerRun → Bool
is_live_compile p run_id r = str_eq r.id run_id && str_eq r.profile_id p && is_running r.status

-- What a compilation publishes locally.
pub record Built : Type 0 where
  pub generation_id : String
  pub snapshot_id : String
  pub policy_hash : String
  pub contract_hash : String
  pub file_count : ℕ
  pub warning_count : ℕ

unfoldable pub desire_generation : Built → String → ℕ → CompilerState → CompilerState
desire_generation b binding now s = record s {
  last_success_generation_id = some b.generation_id;
  last_success_at = some now;
  last_source_snapshot_id = some b.snapshot_id;
  last_policy_hash = some b.policy_hash;
  last_eligibility_contract_hash = some b.contract_hash;
  local_mode = generation;
  current_remote_binding = some binding;
  desired_derived_mode = generation;
  desired_derived_generation_id = some b.generation_id;
  desired_derived_revision = s.desired_derived_revision + 1;
  derived_state = pending;
}

-- FinishCompilerRun
unfoldable pub finish_compiler_run : String → String → Built → String → ℕ → CompilerDb → CompilerDb
unfolding desire_generation
finish_compiler_run p run_id b binding now db =
    update_state p (desire_generation b binding now) (record db {
      compiler_runs =
          update_where (is_live_compile p run_id)
            (λ r. record r {
              status = succeeded;
              completed_at = some now;
              source_snapshot_id = some b.snapshot_id;
              file_count = b.file_count;
              warning_count = b.warning_count;
            })
            db.compiler_runs;
    })

-- FailCompilerRun
unfoldable pub fail_compiler_run : String → String → String → ℕ → CompilerDb → CompilerDb
fail_compiler_run p run_id message now db = record db {
  compiler_runs =
      update_where (is_live_compile p run_id)
        (λ r. record r { status = failed; completed_at = some now; error = message })
        db.compiler_runs;
}

unfoldable pub desire_absent : String → CompilerState → CompilerState
desire_absent operation_id s = record s {
  desired_derived_mode = absent;
  desired_derived_generation_id = none;
  desired_derived_revision = s.desired_derived_revision + 1;
  local_clean_state = committing;
  local_clean_operation_id = some operation_id;
  local_mode = absent;
  derived_state = pending;
}

-- MarkCompilerClean
unfoldable pub mark_compiler_clean : String → String → CompilerDb → CompilerDb
unfolding desire_absent
mark_compiler_clean p operation_id db = update_state p (desire_absent operation_id) db

-- FinishCompilerClean
unfoldable pub finish_compiler_clean : String → CompilerDb → CompilerDb
finish_compiler_clean p db =
    update_state p (λ s. record s { local_clean_state = idle; local_clean_operation_id = none }) db

abbrev pub is_live_derived : String → String → DerivedRun → Bool
is_live_derived p run_id r = str_eq r.id run_id && str_eq r.profile_id p && is_running r.status

-- UpdateDerivedRunPhase
unfoldable pub update_derived_run_phase : String → String → String → CompilerDb → CompilerDb
update_derived_run_phase p run_id phase db = record db {
  derived_runs =
      update_where (is_live_derived p run_id) (λ r. record r { phase = phase }) db.derived_runs;
}

-- mode == desired && generation matches, for the kind that ran
abbrev pub satisfies : DerivedKind → Option String → CompilerState → Bool
satisfies purge g s = elim s.desired_derived_mode [ absent ↦ true | generation ↦ false ]
satisfies publish none s = false
satisfies publish (some g) s = elim s.desired_derived_mode [
  | absent ↦ false
  | generation ↦ str_eq (get_or "" s.desired_derived_generation_id) g
]

abbrev pub remote_after : DerivedKind → RemoteState
remote_after publish = holds_generation
remote_after purge = holds_nothing

unfoldable pub published : DerivedKind → Option String → String → ℕ → CompilerState → CompilerState
published kind g binding now s = record s {
  remote_published_generation_id = g;
  remote_published_binding = some binding;
  remote_state = remote_after kind;
  remote_state_binding = some binding;
  derived_state = if satisfies kind g s then current else pending;
  active_publish_generation_id = none;
  retry_target_key = none;
  retry_classification = none;
  consecutive_failures = 0;
  limited_failures = 0;
  next_retry_at = none;
  terminal_error_code = none;
  last_derived_error = none;
  last_derived_success_at = some now;
}

-- FinishDerivedRunSuccess
unfoldable pub finish_derived_success :
    String
    → String
    → String
    → Option String
    → DerivedKind
    → ℕ
    → CompilerDb
    → Result (Unit {0}) × CompilerDb
unfolding published
finish_derived_success p run_id binding g kind now db = elim (db.states p) [
  | none ↦ (err not_found, db)
  | some s ↦ (
    ok tt,
    update_state p (published kind g binding now) (record db {
      derived_runs =
          update_where (is_live_derived p run_id)
            (λ r. record r { status = succeeded; completed_at = some now }) db.derived_runs;
    }),
  )
]

abbrev pub mode_eq : Mode → Mode → Bool
mode_eq generation generation = true
mode_eq absent absent = true
mode_eq _ _ = false

abbrev pub key_eq : TargetKey → TargetKey → Bool
key_eq j k =
    mode_eq j.mode k.mode
    && str_eq j.generation_id k.generation_id
    && j.revision == k.revision
    && str_eq j.binding k.binding

-- derived_retry_target_key = ? OR derived_retry_target_key IS NULL
abbrev pub key_matches : TargetKey → Option TargetKey → Bool
key_matches k none = true
key_matches k (some j) = key_eq j k

abbrev pub is_limited : RetryClass → Bool
is_limited retryable_limited = true
is_limited _ = false

-- The delay before the next attempt; a terminal failure has none.
abbrev pub delay : RetryClass → ℕ → ℕ → ℕ → ℕ → Option ℕ
delay retryable failures limited now_ns jitter =
    some (stamp (now_ns + retry_backoff failures jitter))
delay retryable_limited failures limited now_ns jitter =
    some (stamp (now_ns + limited_retry_backoff limited))
delay terminal failures limited now_ns jitter = none

abbrev pub terminal_code : RetryClass → String → Option String
terminal_code terminal code = some code
terminal_code _ code = none

-- A failure of a derived run, as FinishDerivedRunFailure is given it.
pub record Failure : Type 0 where
  pub code : String
  pub classification : RetryClass
  pub message : String

abbrev pub limited_after : RetryClass → ℕ → ℕ
limited_after c n = if is_limited c then n + 1 else n

unfoldable pub charge_target : TargetKey → Failure → ℕ → ℕ → CompilerState → CompilerState
charge_target key f now_ns jitter s =
    let failures = s.consecutive_failures + 1 in
    let limited = limited_after f.classification s.limited_failures in
    record s {
      derived_state = failed;
      last_derived_error = some f.message;
      retry_classification = some f.classification;
      consecutive_failures = failures;
      limited_failures = limited;
      next_retry_at = delay f.classification failures limited now_ns jitter;
      terminal_error_code = terminal_code f.classification f.code;
      retry_target_key = some key;
    }

-- The two updates of the row: the pin is released in any case.
unfoldable pub failed_state : TargetKey → Failure → ℕ → ℕ → CompilerState → CompilerState
unfolding charge_target
failed_state key f now_ns jitter s =
    let unpinned = record s { active_publish_generation_id = none } in
    if key_matches key s.retry_target_key
    then charge_target key f now_ns jitter unpinned
    else unpinned

-- FinishDerivedRunFailure
unfoldable pub finish_derived_failure :
    String → String → TargetKey → Failure → ℕ → ℕ → CompilerDb → Result (Unit {0}) × CompilerDb
unfolding failed_state
finish_derived_failure p run_id key f now_ns jitter db = elim (db.states p) [
  | none ↦ (err not_found, db)
  | some s ↦ (
    ok tt,
    update_state p (failed_state key f now_ns jitter) (record db {
      derived_runs =
          update_where (is_live_derived p run_id)
            (λ r. record r {
              status = failed;
              completed_at = some (stamp now_ns);
              error_code = f.code;
              error_classification = some f.classification;
              error = f.message;
            })
            db.derived_runs;
    }),
  )
]

-- CASE WHEN derived_state = 'syncing' THEN 'pending' ELSE derived_state END
abbrev pub resumed : DerivedState → DerivedState
resumed syncing = pending
resumed d = d

unfoldable pub recovered : CompilerState → CompilerState
recovered s = if not (is_some s.active_publish_generation_id) then s else record s {
  active_publish_generation_id = none;
  derived_state = resumed s.derived_state;
  retry_target_key = none;
  retry_classification = none;
  next_retry_at = none;
}

abbrev pub map_table {ℓ} : {V : Type ℓ} → (V → V) → Table V → Table V
map_table f t j = elim (t j) [ none ↦ none | some v ↦ some (f v) ]

-- RecoverDerivedRuns, of all profiles
unfoldable pub recover_derived_runs : ℕ → CompilerDb → CompilerDb
unfolding recovered
recover_derived_runs now db = record db {
  states = map_table recovered db.states;
  derived_runs =
      update_where (λ r. is_running r.status)
        (λ r. record r {
          status = interrupted;
          completed_at = some now;
          error_code = worker_interrupted_code;
          error_classification = some retryable;
          error = "derived run interrupted by worker restart";
        })
        db.derived_runs;
}
