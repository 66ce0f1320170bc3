-- ===== src/Leases.antt =====
-- internal/state/leases.go: the leases that bound the number of operations on a remote, across
-- processes. Times are in milliseconds.
pub mod Order
pub mod Bound
use Prim.Native.String.{compare}
use text.Mathlib.Text.{is_lt}
use gd_sync_harness.Prelude.{
  ℕ, ℤ, pos, negsuc, ◌<?◌, ◌+◌, max, String, Bool, true, false, not, ◌&&◌, ◌||◌, Option, none, some,
  List, [], ◌∷◌, ◌++◌, str_eq, ltb, leb, ◌==◌, if◌then◌else◌,
}
use gd_sync_harness.Db.Table.{delete_where, update_where, exists_where, count_where}

pub data LeaseState : Type 0 where
  waiting running : LeaseState

-- The table remote_operation_leases.
pub record Lease : Type 0 where
  pub id : String
  pub remote_name : String
  pub priority : ℤ
  pub owner_pid : ℕ
  pub state : LeaseState
  pub created_at : ℕ
  pub lease_until : ℕ

-- remoteLeaseDuration
abbrev pub remote_lease_duration : ℕ
remote_lease_duration = 300000

-- The lower bound that AcquireRemoteLease puts on maxConcurrent.
abbrev pub effective_max : ℤ → ℕ
effective_max (pos n) = max 1 n
effective_max (negsuc n) = 1

abbrev pub is_running : LeaseState → Bool
is_running running = true
is_running waiting = false

abbrev pub has_id : String → Lease → Bool
has_id id l = str_eq l.id id

abbrev pub runs_on : String → Lease → Bool
runs_on remote l = str_eq l.remote_name remote && is_running l.state

abbrev pub waits_on : String → Lease → Bool
waits_on remote l = str_eq l.remote_name remote && not (is_running l.state)

abbrev pub is_expired : ℕ → Lease → Bool
is_expired now l = is_running l.state && ltb l.lease_until now

-- The insertion of AcquireRemoteLease; none where the primary key is taken
unfoldable pub enqueue : String → ℤ → ℕ → String → ℕ → List Lease → Option (List Lease)
enqueue remote priority owner_pid id now ls =
    if exists_where (has_id id) ls
    then none
    else some (
        ls
        ++ record {
          id = id;
          remote_name = remote;
          priority = priority;
          owner_pid = owner_pid;
          state = waiting;
          created_at = now;
          lease_until = now + remote_lease_duration;
        }
          ∷ [])

-- ORDER BY priority DESC, created_at, id
unfoldable pub before : Lease → Lease → Bool
before a b =
    b.priority <? a.priority
    || (not (a.priority <? b.priority)
        && (ltb a.created_at b.created_at
            || (a.created_at == b.created_at && is_lt (compare a.id b.id))))

-- One step of the ORDER BY … LIMIT 1.
unfoldable pub better : Lease → Option Lease → Option Lease
unfolding before
better l none = some l
better l (some m) = some (if before m l then m else l)

unfoldable pub first_waiting : String → List Lease → Option Lease
unfolding better
first_waiting remote [] = none
first_waiting remote (l ∷ ls) =
    let rest = first_waiting remote ls in if waits_on remote l then better l rest else rest

unfoldable pub promote : ℕ → Lease → Lease
promote now l = record l { state = running; lease_until = now + remote_lease_duration }

-- tryClaimRemoteLease: a transaction that claims nothing is rolled back, with the expired leases that
-- it deleted.
unfoldable pub try_claim : String → String → ℕ → ℕ → List Lease → Bool × List Lease
unfolding first_waiting promote
try_claim remote id max_concurrent now ls =
    let live = delete_where (is_expired now) ls in
    if leb max_concurrent (count_where (runs_on remote) live)
    then (false, ls)
    else elim (first_waiting remote live) [
      | none ↦ (false, ls)
      | some l ↦
          if str_eq l.id id
          then (true, update_where (has_id id) (promote now) live)
          else (false, ls)
    ]

-- ReleaseRemoteLease
unfoldable pub release : String → List Lease → List Lease
release id ls = delete_where (has_id id) ls

pub data Wait : Type 0 where
  cancelled acquired still_waiting : Wait

-- One turn of the loop of AcquireRemoteLease, which other processes run between two turns.
unfoldable pub poll : String → String → ℤ → Bool → ℕ → List Lease → Wait × List Lease
unfolding try_claim release
poll remote id max_concurrent is_done now ls =
    if is_done
    then (cancelled, release id ls)
    else (let (claimed, ls1) = try_claim remote id (effective_max max_concurrent) now ls in
        (if claimed then acquired else still_waiting, ls1))

unfoldable pub extend : ℕ → Lease → Lease
extend now l = record l { lease_until = now + remote_lease_duration }

-- RenewRemoteLease; whether a running lease had the id
unfoldable pub renew : String → ℕ → List Lease → Bool × List Lease
unfolding extend
renew id now ls =
    let test : Lease → Bool = λ l. has_id id l && is_running l.state in
    (exists_where test ls, update_where test (extend now) ls)
