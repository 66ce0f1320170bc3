-- ===== src/Sync/Retrying.antt =====
-- What a failed attempt does to the claims that follow it.
use gd_sync_harness.Prelude.{
  ◌⊎◌, ℕ, ◌+◌, ◌≤◌, ◌<◌, String, ◌≡◌, ◌≢◌, true, false, inl, inr, some, str_eq, ltb, arith, eq_refl,
}
use gd_sync_harness.Db.Schema.{
  Db, ProfileSyncState, SyncRun, retryable, retryable_limited, terminal,
}
use gd_sync_harness.Retry.{retry_backoff, limited_retry_backoff}
use gd_sync_harness.Sync.Claim.{claimed, claim_run, gate_closed}
use gd_sync_harness.Sync.Admission.{claim_run_sound}
use gd_sync_harness.Sync.Commit.{
  RunFailure, commit_run_failure, failed_row, stamp, worker_interrupted_code,
}

pub commit_run_failure-row :
    (p run_id : String) (f : RunFailure) (now_ns jitter : ℕ) (db : Db) (s : ProfileSyncState)
    → db.sync_state p ≡ some s
    → (commit_run_failure p run_id f now_ns jitter db).1.sync_state p
      ≡ some (failed_row f now_ns jitter s)
unfolding commit_run_failure
commit_run_failure-row p run_id f now_ns jitter db s row = ground (arith, eq_refl p)

-- A claim that starts an attempt finds the gate of the stored row open.
claimed-open :
    (p id : String) (now : ℕ) (db : Db) (s : ProfileSyncState) (r : SyncRun)
    → db.sync_state p ≡ some s
    → (claim_run p id now db).0 ≡ claimed r
    → gate_closed s now ≡ false
claimed-open p id now db s r row h =
    let a = claim_run_sound p id now db r h in ground (arith, a.state_row, a.admits.open_gate)

terminal-closed :
    (f : RunFailure) (now_ns jitter t : ℕ) (s : ProfileSyncState)
    → f.classification ≡ terminal
    → gate_closed (failed_row f now_ns jitter s) t ≡ true
unfolding failed_row gate_closed
terminal-closed f now_ns jitter t s h = ground arith

retryable-closed :
    (f : RunFailure) (now_ns jitter t : ℕ) (s : ProfileSyncState)
    → f.classification ≡ retryable
    → str_eq f.code worker_interrupted_code ≡ false
    → gate_closed (failed_row f now_ns jitter s) t
      ≡ ltb t (stamp (now_ns + retry_backoff (s.consecutive_failures + 1) jitter))
unfolding failed_row gate_closed
retryable-closed f now_ns jitter t s h c = ground arith

limited-closed :
    (f : RunFailure) (now_ns jitter t : ℕ) (s : ProfileSyncState)
    → f.classification ≡ retryable_limited
    → s.limited_failures < 3
    → str_eq f.code worker_interrupted_code ≡ false
    → gate_closed (failed_row f now_ns jitter s) t
      ≡ ltb t (stamp (now_ns + limited_retry_backoff (s.limited_failures + 1)))
unfolding failed_row gate_closed
limited-closed f now_ns jitter t s h b c = ground arith

limited-exhausted :
    (f : RunFailure) (now_ns jitter t : ℕ) (s : ProfileSyncState)
    → f.classification ≡ retryable_limited
    → 3 ≤ s.limited_failures
    → gate_closed (failed_row f now_ns jitter s) t ≡ true
unfolding failed_row gate_closed
limited-exhausted f now_ns jitter t s h b = ground arith

module _ (p run_id : String) (f : RunFailure) (now_ns jitter : ℕ) (db : Db) (s : ProfileSyncState)
    (row : db.sync_state p ≡ some s) where
  abbrev after_failure : Db
  after_failure = (commit_run_failure p run_id f now_ns jitter db).1

  -- After a terminal failure, and after the fourth unclassified failure in a row, no claim starts an
  -- attempt, at any time: the gate stays closed until a transaction opens it.
  pub terminal_failure_closes :
      (f.classification ≡ terminal)
        ⊎ ((f.classification ≡ retryable_limited) × (3 ≤ s.limited_failures))
      → (id : String) (now : ℕ) (r : SyncRun) → (claim_run p id now after_failure).0 ≢ claimed r
  terminal_failure_closes why id now r h =
      let closed =
        claimed-open p id now after_failure (failed_row f now_ns jitter s) r
          (commit_run_failure-row p run_id f now_ns jitter db s row) h in
      elim why [
        | inl t ↦ cc (closed, terminal-closed f now_ns jitter now s t)
        | inr (l, n) ↦ cc (closed, limited-exhausted f now_ns jitter now s l n)
      ]

  -- After a retryable failure of an attempt, a claim that starts the next one comes no earlier than
  -- the exponential back-off allows, for one more consecutive failure than before.
  retryable_failure_waits :
      f.classification ≡ retryable
      → str_eq f.code worker_interrupted_code ≡ false
      → (id : String) (now : ℕ) (r : SyncRun) → (claim_run p id now after_failure).0 ≡ claimed r
      → stamp (now_ns + retry_backoff (s.consecutive_failures + 1) jitter) ≤ now
  retryable_failure_waits c code id now r h =
      let closed =
        claimed-open p id now after_failure (failed_row f now_ns jitter s) r
          (commit_run_failure-row p run_id f now_ns jitter db s row) h in
      ground (arith, closed, retryable-closed f now_ns jitter now s c code)

  -- After one of the first three unclassified failures the next attempt waits one, five and fifteen
  -- minutes.
  limited_failure_waits :
      f.classification ≡ retryable_limited
      → s.limited_failures < 3
      → str_eq f.code worker_interrupted_code ≡ false
      → (id : String) (now : ℕ) (r : SyncRun) → (claim_run p id now after_failure).0 ≡ claimed r
      → stamp (now_ns + limited_retry_backoff (s.limited_failures + 1)) ≤ now
  limited_failure_waits c few code id now r h =
      let closed =
        claimed-open p id now after_failure (failed_row f now_ns jitter s) r
          (commit_run_failure-row p run_id f now_ns jitter db s row) h in
      ground (arith, closed, limited-closed f now_ns jitter now s c few code)
