-- ===== src/Sync/Invariant.antt =====
-- What holds of a row of profile_sync_state between two transactions, and that each SET keeps it.
use gd_sync_harness.Prelude.{ℕ, ◌≤◌, String, ◌≡◌, ◌≢◌, true, false, arith, is_some, get_or}
use gd_sync_harness.Db.Schema.{ProfileSyncState, initializing, syncing, ready, error}
use gd_sync_harness.Sync.{
  has_debt, new_row, request_desired, request_state, raise_desired, open_window, reopen,
}
use gd_sync_harness.Sync.Intent.{ManualReconcileIntent, clear_gate, advance, attach, mark_owing}
use gd_sync_harness.Sync.Claim.{consume, take}
use gd_sync_harness.Sync.Commit.{settle, RunFailure, failed_row, orphan_row}

pub record IsSound (s : ProfileSyncState) : Type 0 where
  -- no success beyond what was asked for, and no manual request either
  pub success_bound : get_or 0 s.last_success_generation ≤ s.desired_generation
  pub manual_bound : get_or 0 s.pending_manual_generation ≤ s.desired_generation
  -- the public state tells the truth
  pub ready_settled : s.state ≡ ready → has_debt s ≡ false
  pub initializing_new : s.state ≡ initializing → is_some s.last_success_generation ≡ false
  pub syncing_once : s.state ≡ syncing → is_some s.last_success_generation ≡ true
  -- an attempt runs only for debt, and not behind an error
  pub running_owes : is_some s.current_run_id ≡ true → has_debt s ≡ true
  pub running_open : is_some s.current_run_id ≡ true → s.state ≢ error
  -- the fourth unclassified failure is terminal
  pub limited_bound : s.limited_failures ≤ 3

pub new_row-IsSound : (n : ℕ) → IsSound (new_row n)
new_row-IsSound n = ground arith

pub request-IsSound :
    (n : ℕ) (s : ProfileSyncState) → IsSound s → IsSound (request_state (request_desired n s))
unfolding request_state request_desired
request-IsSound n s h = ground arith

pub raise_desired-IsSound : (n : ℕ) (s : ProfileSyncState) → IsSound s → IsSound (raise_desired n s)
unfolding raise_desired
raise_desired-IsSound n s h = ground arith

pub open_window-IsSound : (now : ℕ) (s : ProfileSyncState) → IsSound s → IsSound (open_window now s)
unfolding open_window
open_window-IsSound now s h = ground arith

pub reopen-IsSound : (s : ProfileSyncState) → IsSound s → IsSound (reopen s)
unfolding reopen
reopen-IsSound s h = ground arith

pub manual-IsSound :
    (n : ℕ) (i : ManualReconcileIntent) (s : ProfileSyncState)
    → IsSound s
    → IsSound (attach (advance n (clear_gate s)).desired_generation i (advance n (clear_gate s)))
unfolding attach advance clear_gate
manual-IsSound n i s h = ground arith

pub scheduled-IsSound :
    (n : ℕ) (s : ProfileSyncState) → IsSound s → IsSound (mark_owing (advance n s))
unfolding mark_owing advance
scheduled-IsSound n s h = ground arith

pub claimed-IsSound :
    (id : String) (now : ℕ) (s : ProfileSyncState)
    → has_debt s ≡ true
    → IsSound s
    → IsSound (take id now (consume s))
unfolding take consume
claimed-IsSound id now s d h = ground arith

pub settle-IsSound :
    (target now : ℕ) (s : ProfileSyncState)
    → target ≤ s.desired_generation
    → IsSound s
    → IsSound (settle target now s)
unfolding settle
settle-IsSound target now s b h = ground arith

pub failed-IsSound :
    (f : RunFailure) (now_ns jitter : ℕ) (s : ProfileSyncState)
    → IsSound s
    → IsSound (failed_row f now_ns jitter s)
unfolding failed_row
failed-IsSound f now_ns jitter s h = ground arith

pub orphan-IsSound : (s : ProfileSyncState) → IsSound s → IsSound (orphan_row s)
unfolding orphan_row
orphan-IsSound s h = ground arith
