-- ===== src/Machine/Queued.antt =====
-- Each transaction keeps the queue of pending events sound.
use gd_sync_harness.Prelude.{
  ℕ, ℤ, suc, String, ◌≡◌, refl, ap, Bool, true, false, if◌then◌else◌, not, ◌||◌, ◌⊎◌, inl, inr,
  none, some, List, [], ◌∷◌, All-imp, arith, eq_iff, eq_refl, str_eq, Bool-cases, Option-cases,
}
use gd_sync_harness.Db.Table.{Table, update_row, delete_where}
use gd_sync_harness.Db.Table.Laws.{All-delete_where}
use gd_sync_harness.Db.Schema.{Db, Runtime, PendingEvent, EventKind}
use gd_sync_harness.Sync.{request_reconcile, request_runtime, update_runtime}
use gd_sync_harness.Sync.Intent.{
  ManualReconcileIntent, submit_manual_reconcile, submit_scheduled_reconcile,
}
use gd_sync_harness.Sync.Claim.{claim_run}
use gd_sync_harness.Sync.Claiming.{claim_run-cases}
use gd_sync_harness.Sync.Commit.{
  RunFailure, charge, stamp, reads_counter, write_failure, commit_run_success, commit_run_failure,
  settle_runtime, is_covered,
}
use gd_sync_harness.Events.{
  record_event, collapse, fast_event, bump, clear_pending, clear_pending_events, is_safe_fast_kind,
  needs_bootstrap, is_of, is_version, new_event, merge_observed, observed,
}
use gd_sync_harness.Lifecycle.{create_profile, created, finalize_deletion, forget_profile, has_rows}
use gd_sync_harness.Machine.Queue.{
  EventOk, QueueOk, Grows, Grows-refl, Grows-update, QueueOk-grow, QueueOk-delete, All-upsert,
  EventOk-merge,
}

pub request-QueueOk : (p : String) (db : Db) → QueueOk db → QueueOk (request_reconcile p db)
unfolding request_reconcile
request-QueueOk p db w =
    QueueOk-grow db (request_reconcile p db)
      (Grows-update p request_runtime db.runtime (λ r. omega arith)) refl w

pub manual-QueueOk :
    (p : String) (i : ManualReconcileIntent) (db : Db)
    → QueueOk db
    → QueueOk (submit_manual_reconcile p i db).1
manual-QueueOk p i db w =
    QueueOk-grow db (submit_manual_reconcile p i db).1
      (rw runtime (Grows-update p request_runtime db.runtime (λ r. omega arith))) queue w
  where
    runtime : (submit_manual_reconcile p i db).1.runtime ≡ update_row p request_runtime db.runtime
    runtime = unfold submit_manual_reconcile in ground (arith, eq_refl p)

    queue : (submit_manual_reconcile p i db).1.pending_events ≡ db.pending_events
    queue = unfold submit_manual_reconcile in ground (arith, eq_refl p)

pub scheduled-QueueOk :
    (p : String) (db : Db) → QueueOk db → QueueOk (submit_scheduled_reconcile p db).1
unfolding submit_scheduled_reconcile
scheduled-QueueOk p db w =
    QueueOk-grow db (submit_scheduled_reconcile p db).1 (rw same (Grows-refl db.runtime))
      (ground arith) w
  where
    same : (submit_scheduled_reconcile p db).1.runtime ≡ db.runtime
    same = ground arith

pub claim-QueueOk :
    (p id : String) (now : ℕ) (db : Db) → QueueOk db → QueueOk (claim_run p id now db).1
claim-QueueOk p id now db w = elim (claim_run-cases p id now db) [
  | inl (same, other) ↦ rw same w
  | inr (pr, s, st) ↦ rw (ap (λ c. c.1) st.result) w
]

pub succeed-QueueOk :
    (p id : String) (target now : ℕ) (db : Db)
    → QueueOk db
    → QueueOk (commit_run_success p id target now db)
unfolding commit_run_success settle_runtime
succeed-QueueOk p id target now db w =
    QueueOk-delete db (commit_run_success p id target now db) (is_covered p target)
      (Grows-update p _ db.runtime (λ r. omega arith)) refl w

pub write_failure-QueueOk :
    (p id : String) (f : RunFailure) (now : ℕ) (db : Db)
    → QueueOk db
    → QueueOk (write_failure p id f now db)
unfolding write_failure
write_failure-QueueOk p id f now db w =
    QueueOk-grow db (write_failure p id f now db)
      (Grows-update p (λ r. record r { last_error = some f.message }) db.runtime (λ r. omega arith))
      refl w

pub fail-QueueOk :
    (p id : String) (f : RunFailure) (now_ns jitter : ℕ) (db : Db)
    → QueueOk db
    → QueueOk (commit_run_failure p id f now_ns jitter db).1
unfolding commit_run_failure
fail-QueueOk p id f now_ns jitter db w = elim (Option-cases (db.sync_state p)) [
  | inr (s, e) ↦
      rw (e, commit_run_failure)
        (write_failure-QueueOk p id (charge f s now_ns jitter).failure (stamp now_ns) db w)
  | inl e ↦ elim (Bool-cases (reads_counter f.classification f.code)) [
    | inl b ↦ rw (e, b, commit_run_failure) w
    | inr b ↦ rw (e, b, commit_run_failure) (write_failure-QueueOk p id f (stamp now_ns) db w)
  ]
]

pub collapse-QueueOk :
    (p : String) (n now : ℕ) (db : Db) → QueueOk db → QueueOk (collapse p n now db)
unfolding collapse
collapse-QueueOk p n now db w =
    QueueOk-delete db (collapse p n now db) (is_of p)
      (Grows-update p request_runtime db.runtime (λ r. omega arith)) refl w

pub bump-QueueOk : (p : String) (db : Db) → QueueOk db → QueueOk (update_runtime p bump db)
unfolding bump
bump-QueueOk p db w =
    QueueOk-grow db (update_runtime p bump db) (Grows-update p bump db.runtime (λ r. omega arith))
      refl w

pub fast-QueueOk :
    (p path : String) (kind : EventKind) (h : String) (now : ℕ) (db : Db) (r : Runtime)
    → is_safe_fast_kind kind ≡ true
    → db.runtime p ≡ some r
    → QueueOk db
    → QueueOk (fast_event p path kind h (r.source_generation) now db)
unfolding fast_event
fast-QueueOk p path kind h now db r safe row w =
    let new = observed h (db.policy p) (new_event p path kind r.source_generation now) in
    All-upsert (EventOk db.runtime) new (merge_observed new) db.pending_events ok
      (λ e at we. EventOk-merge db.runtime new e at ok we) w
  where
    ok :
        EventOk db.runtime
          (observed h (db.policy p) (new_event p path kind r.source_generation now))
    ok = elim (Option-cases (db.policy p)) [
      | inl e ↦ rw e (unfold new_event in (safe, (r, row, omega arith)))
      | inr (c, e) ↦ rw e (unfold new_event in (safe, (r, row, omega arith)))
    ]

pub event-QueueOk :
    (p path : String) (kind : EventKind) (is_full : Bool) (h : String) (now : ℕ) (db : Db)
    → QueueOk db
    → QueueOk (record_event p path kind is_full h now db).1
unfolding record_event
event-QueueOk p path kind is_full h now db w = elim (Option-cases (db.runtime p)) [
  | inl e ↦ rw (e, record_event) w
  | inr (r, e) ↦ elim (Option-cases (db.sync_state p)) [
    | inl e' ↦ rw (e, e', record_event) w
    | inr (s, e') ↦
        elim (Bool-cases (is_full || not (is_safe_fast_kind kind) || needs_bootstrap s)) [
          | inl b ↦
              rw (e, e', b, record_event)
                (collapse-QueueOk p (suc r.source_generation) now (update_runtime p bump db)
                  (bump-QueueOk p db w))
          | inr b ↦
              rw (e, e', b, record_event)
                (fast-QueueOk p path kind h now (update_runtime p bump db) (bump r) (ground arith)
                  (unfold bump in ground (arith, eq_refl p)) (bump-QueueOk p db w))
        ]
  ]
]

pub clear_versions-QueueOk :
    (p : String) (es : List PendingEvent) (db : Db)
    → QueueOk db
    → QueueOk (clear_pending_events p es db)
unfolding clear_pending_events
clear_versions-QueueOk p [] db w = w
clear_versions-QueueOk p (e ∷ es) db w =
    let db1 : Db = record db { pending_events = delete_where (is_version p e) db.pending_events } in
    clear_versions-QueueOk p es db1
      (QueueOk-delete db db1 (is_version p e) (Grows-refl db.runtime) refl w)

pub clear-QueueOk : (p : String) (db : Db) → QueueOk db → QueueOk (clear_pending p db)
unfolding clear_pending
clear-QueueOk p db w =
    QueueOk-delete db (clear_pending p db) (is_of p) (Grows-refl db.runtime) refl w

pub profile-QueueOk :
    (db db' : Db)
    → db'.runtime ≡ db.runtime
    → db'.pending_events ≡ db.pending_events
    → QueueOk db
    → QueueOk db'
profile-QueueOk db db' e e' w = rw (e, e') w

pub finalize-QueueOk :
    (p : String) (now : ℕ) (db : Db) → QueueOk db → QueueOk (finalize_deletion p now db).1
finalize-QueueOk p now db w = elim split [
  | inl e ↦ profile-QueueOk db (finalize_deletion p now db).1 runtime e w
  | inr e ↦
      QueueOk-delete db (finalize_deletion p now db).1 (is_of p)
        (rw runtime (Grows-refl db.runtime)) e w
]
  where
    runtime : (finalize_deletion p now db).1.runtime ≡ db.runtime
    runtime = unfold finalize_deletion in ground (arith, eq_refl p)

    split :
        ((finalize_deletion p now db).1.pending_events ≡ db.pending_events)
        ⊎ ((finalize_deletion p now db).1.pending_events ≡ delete_where (is_of p) db.pending_events)
    split = unfold finalize_deletion in ground (arith, eq_refl p)

pub insert-Grows :
    (p : String) (v : Runtime) (rt : Table Runtime)
    → rt p ≡ none
    → Grows rt (λ j. if str_eq p j then some v else rt j)
insert-Grows p v rt none_at j r e = elim (Bool-cases (str_eq p j)) [
  | inl same ↦ ground (arith, eq_iff p j)
  | inr other ↦ (r, rw other e, omega arith)
]

pub create-QueueOk :
    (p : String) (m : ℤ) (enabled : Bool) (h : String) (now : ℕ) (db : Db)
    → QueueOk db
    → QueueOk (create_profile p m enabled h now db).1
unfolding create_profile
create-QueueOk p m enabled h now db w = elim (Option-cases (db.profiles p)) [
  | inr (pr, e) ↦ rw (e, create_profile) w
  | inl e ↦ elim (Bool-cases (has_rows p db)) [
    | inl b ↦ rw (e, b, create_profile) w
    | inr b ↦
        rw (e, b, create_profile)
          (QueueOk-grow db (created p m enabled h now db)
            (insert-Grows p _ db.runtime (unfold has_rows in ground arith)) refl w)
  ]
]

pub deleted-EventOk :
    (p : String) (rt : Table Runtime) (e : PendingEvent)
    → EventOk rt e
    → str_eq e.profile_id p ≡ false
    → EventOk (λ j. if str_eq p j then none else rt j) e
deleted-EventOk p rt e (safe, (r, row, le)) other =
    (safe, (r, ground (arith, eq_iff e.profile_id p, eq_iff p e.profile_id), le))

pub forget-QueueOk : (p : String) (db : Db) → QueueOk db → QueueOk (forget_profile p db).1
unfolding forget_profile
forget-QueueOk p db w = elim (Option-cases (db.profiles p)) [
  | inl e ↦ rw (e, forget_profile) w
  | inr (pr, e) ↦ elim (Bool-cases pr.tombstoned) [
    | inr b ↦ rw (e, b, forget_profile) w
    | inl b ↦
        rw (e, b, forget_profile)
          (All-imp _ _ _ (λ v h. deleted-EventOk p db.runtime v h.0 h.1)
            (All-delete_where (EventOk db.runtime) (λ v. str_eq v.profile_id p) db.pending_events
              w))
  ]
]
