-- ===== src/Derived/Claim.antt =====
-- ClaimDerivedRun of internal/state/compiler.go.
use gd_sync_harness.Prelude.{
  ℕ, String, Bool, true, false, not, ◌&&◌, ◌||◌, Option, none, some, [], ◌∷◌, ◌++◌, str_eq, ◌==◌,
  get_or, is_some, if◌then◌else◌,
}
use gd_sync_harness.Db.Table.{exists_where}
use gd_sync_harness.Db.Schema.{Profile, RetryClass, Err, terminal, not_found, constraint}
use gd_sync_harness.Sync.Claim.{is_before}
use gd_sync_harness.Derived.{
  CompilerDb, CompilerState, DerivedRun, DerivedKind, TargetKey, Mode, RemoteState, generation,
  absent, publish, purge, running, syncing, holds_generation, holds_nothing, key_eq, update_state,
}

-- What ClaimDerivedRun returns: a run with its target key, nothing, or an error.
pub data DerivedClaim : Type 0 where
  claimed : DerivedRun → TargetKey → DerivedClaim
  nothing : DerivedClaim
  failed : Err → DerivedClaim

abbrev pub is_nothing : RemoteState → Bool
is_nothing holds_nothing = true
is_nothing _ = false

abbrev pub is_held : RemoteState → Bool
is_held holds_generation = true
is_held _ = false

-- The remote is what the desire says.
unfoldable pub is_current : String → CompilerState → Bool
is_current binding s =
    let remote_binding = get_or "" s.remote_state_binding in
    let desired = get_or "" s.desired_derived_generation_id in
    elim s.desired_derived_mode [
      | absent ↦ is_nothing s.remote_state && str_eq remote_binding binding
      | generation ↦
          not (str_eq desired "")
          && str_eq (get_or "" s.remote_published_generation_id) desired
          && str_eq (get_or "" s.remote_published_binding) binding
          && is_held s.remote_state
          && str_eq remote_binding binding
    ]

-- DerivedTargetKey, of the desire that the row holds
abbrev pub key_of : String → CompilerState → TargetKey
key_of binding s = record {
  mode = s.desired_derived_mode;
  generation_id = get_or "" s.desired_derived_generation_id;
  revision = s.desired_derived_revision;
  binding = binding;
}

abbrev pub is_terminal : Option RetryClass → Bool
is_terminal (some terminal) = true
is_terminal _ = false

-- The retry gate of this very target.
unfoldable pub is_gated : String → ℕ → CompilerState → Bool
is_gated binding now s = elim s.retry_target_key [
  | none ↦ false
  | some key ↦
      key_eq key (key_of binding s)
      && (is_terminal s.retry_classification || is_before now s.next_retry_at)
]

-- The reasons to return no run, in the order of the code.
unfoldable pub is_refused : String → ℕ → CompilerState → Bool
unfolding is_current is_gated
is_refused binding now s =
    s.desired_derived_revision == 0
    || not (str_eq (get_or "" s.active_publish_generation_id) "")
    || is_current binding s
    || is_gated binding now s

-- The kind, and the target that the two statements write.
abbrev pub kind_of : Mode → DerivedKind
kind_of absent = purge
kind_of generation = publish

abbrev pub written_target : CompilerState → Option String
written_target s = elim s.desired_derived_mode [
  | absent ↦ none
  | generation ↦ some (get_or "" s.desired_derived_generation_id)
]

unfoldable pub new_derived : String → String → String → CompilerState → ℕ → DerivedRun
new_derived p run_id binding s now = record {
  id = run_id;
  profile_id = p;
  kind = kind_of s.desired_derived_mode;
  target_generation_id = written_target s;
  target_binding = binding;
  target_desired_revision = s.desired_derived_revision;
  status = running;
  phase = "";
  started_at = now;
  completed_at = none;
  error_code = "";
  error_classification = none;
  error = "";
}

unfoldable pub pinned : String → CompilerState → CompilerState
pinned binding s = record s {
  derived_state = syncing;
  active_publish_generation_id = written_target s;
  current_remote_binding = some binding;
  retry_target_key = some (key_of binding s);
  retry_classification = none;
  next_retry_at = none;
  terminal_error_code = none;
}

-- nullableString
abbrev pub nullable : String → Option String
nullable v = if str_eq v "" then none else some v

-- The run that is returned: its target is the desired generation, or nil.
unfoldable pub returned : String → String → String → CompilerState → ℕ → DerivedRun
unfolding new_derived
returned p run_id binding s now = record (new_derived p run_id binding s now) {
  target_generation_id = nullable (get_or "" s.desired_derived_generation_id);
}

unfoldable pub start_derived :
    String → String → String → CompilerState → ℕ → CompilerDb → DerivedClaim × CompilerDb
unfolding new_derived pinned returned
start_derived p run_id binding s now db =
    if exists_where (λ r. str_eq r.id run_id) db.derived_runs then (failed constraint, db) else (
      claimed (returned p run_id binding s now) (key_of binding s),
      update_state p (pinned binding)
          (record db { derived_runs = db.derived_runs ++ new_derived p run_id binding s now ∷ [] }),
    )

-- A profile that may not be worked on.
abbrev pub is_inactive : Profile → Bool
is_inactive pr = pr.tombstoned || not pr.enabled || is_some pr.deletion_requested_at

-- ClaimDerivedRun
unfoldable pub claim_derived_run :
    String → String → String → ℕ → CompilerDb → DerivedClaim × CompilerDb
unfolding start_derived is_refused
claim_derived_run p run_id binding now db = elim (db.profiles p) [
  | none ↦ (nothing, db)
  | some pr ↦ if is_inactive pr then (nothing, db) else elim (db.states p) [
    | none ↦ (failed not_found, db)
    | some s ↦
        if is_refused binding now s then (nothing, db) else start_derived p run_id binding s now db
  ]
]
