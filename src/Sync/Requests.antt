-- ===== src/Sync/Requests.antt =====
-- What the requests for reconciliation do to the row of their profile.
use gd_sync_harness.Prelude.{
  ℕ, ◌≤◌, ◌<◌, String, ◌≡◌, ◌≢◌, true, none, some, arith, eq_refl, get_or, refl,
}
use gd_sync_harness.Db.Schema.{Db, ProfileSyncState, ready, ok}
use gd_sync_harness.Sync.{
  has_debt, source_generation, request_desired, request_state, request_reconcile, new_row,
}
use gd_sync_harness.Sync.Intent.{
  ManualReconcileIntent, clear_gate, advance, attach, submit_manual_reconcile,
}

-- The row that EnsureSyncState leaves.
abbrev pub row_of : String → Db → ProfileSyncState
row_of p db = get_or (new_row 0) (db.sync_state p)

-- The row after RequestReconcile, where the profile's source generation is `source`.
unfoldable pub requested : ℕ → ProfileSyncState → ProfileSyncState
unfolding request_state request_desired
requested source s = request_state (request_desired source s)

-- The row after SubmitManualReconcile.
unfoldable pub submitted : ℕ → ManualReconcileIntent → ProfileSyncState → ProfileSyncState
unfolding attach advance clear_gate
submitted source i s = let s1 = advance source (clear_gate s) in attach s1.desired_generation i s1

module _ (p : String) (db : Db) where
  pub request_reconcile-row :
      (request_reconcile p db).sync_state p
      ≡ some (requested (source_generation p db) (row_of p db))
  unfolding request_reconcile requested
  request_reconcile-row = ground (arith, eq_refl p)

  pub submit_manual-row :
      (i : ManualReconcileIntent)
      → (submit_manual_reconcile p i db).1.sync_state p
        ≡ some (submitted (source_generation p db) i (row_of p db))
  unfolding submit_manual_reconcile submitted
  submit_manual-row i = ground (arith, eq_refl p)

  pub submit_manual-result :
      (i : ManualReconcileIntent)
      → (submit_manual_reconcile p i db).0
        ≡ ok (submitted (source_generation p db) i (row_of p db)).desired_generation
  unfolding submit_manual_reconcile submitted
  submit_manual-result i = ground (arith, eq_refl p)

  pub submit_manual-others :
      (i : ManualReconcileIntent)
      → ((submit_manual_reconcile p i db).1.profiles p ≡ db.profiles p)
        × ((submit_manual_reconcile p i db).1.sync_runs ≡ db.sync_runs)
  unfolding submit_manual_reconcile
  submit_manual-others i = ground arith

source-request :
    (p : String) (db : Db) → source_generation p (request_reconcile p db) ≡ source_generation p db
unfolding request_reconcile
source-request p db = ground (arith, eq_refl p)

requested_facts :
    (n : ℕ) (s : ProfileSyncState)
    → (has_debt (requested n s) ≡ true)
      × ((requested n s).state ≢ ready)
      × (n ≤ (requested n s).desired_generation)
      × (requested n (requested n s) ≡ requested n s)
unfolding requested
requested_facts n s = ground arith

submitted_facts :
    (n : ℕ) (i : ManualReconcileIntent) (s : ProfileSyncState)
    → (s.desired_generation < (submitted n i s).desired_generation)
      × (get_or 0 s.last_success_generation < (submitted n i s).desired_generation)
      × (n ≤ (submitted n i s).desired_generation)
      × (has_debt (submitted n i s) ≡ true)
      × ((submitted n i s).state ≢ ready)
unfolding submitted
submitted_facts n i s = ground arith

-- RequestReconcile records one durable opportunity. Whatever the row was before, and if there was
-- none, the profile is in debt afterwards, is not reported ready, and its desired generation covers
-- the source generation; and a duplicate request changes nothing more in the row.
request_reconcile_once :
    (p : String) (db : Db)
    → (s : ProfileSyncState) × ((request_reconcile p db).sync_state p ≡ some s)
      × (has_debt s ≡ true)
      × (s.state ≢ ready)
      × (source_generation p db ≤ s.desired_generation)
      × ((request_reconcile p (request_reconcile p db)).sync_state p ≡ some s)
request_reconcile_once p db =
    let n = source_generation p db in
    let s = row_of p db in
    let (owing, not_ready, covers, again) = requested_facts n s in
    (
      requested n s,
      request_reconcile-row p db,
      owing,
      not_ready,
      covers,
      ground (
        arith,
        request_reconcile-row p db,
        request_reconcile-row p (request_reconcile p db),
        source-request p db,
        again,
      ),
    )

-- A manual request always adds an opportunity: the generation that SubmitManualReconcile returns is
-- above the desired generation and the last success of before, is at least the source generation,
-- and is the desired generation afterwards; the retry gate and the debounce window are cleared, the
-- manual metadata is that of this request, and the profile is in debt and not reported ready.
submit_manual_advances :
    (p : String) (i : ManualReconcileIntent) (db : Db)
    → (s : ProfileSyncState) × ((submit_manual_reconcile p i db).1.sync_state p ≡ some s)
      × ((submit_manual_reconcile p i db).0 ≡ ok s.desired_generation)
      × ((row_of p db).desired_generation < s.desired_generation)
      × (get_or 0 (row_of p db).last_success_generation < s.desired_generation)
      × (source_generation p db ≤ s.desired_generation)
      × (s.retry_classification ≡ none)
      × (s.next_retry_at ≡ none)
      × (s.reconcile_not_before_at ≡ none)
      × (s.pending_manual_generation ≡ some s.desired_generation)
      × (s.pending_manual_allow_deletes ≡ some i.allow_deletes)
      × (s.pending_manual_bypass_debounce ≡ i.bypass_debounce)
      × (has_debt s ≡ true)
      × (s.state ≢ ready)
submit_manual_advances p i db =
    let n = source_generation p db in
    let s = row_of p db in
    let (a, b, c, d, e) = submitted_facts n i s in
    (
      submitted n i s,
      submit_manual-row p db i,
      submit_manual-result p db i,
      a,
      b,
      c,
      unfold submitted in refl,
      unfold submitted in refl,
      unfold submitted in refl,
      unfold submitted in refl,
      unfold submitted in refl,
      unfold submitted in refl,
      d,
      e,
    )
