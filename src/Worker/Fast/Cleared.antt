-- ===== src/Worker/Fast/Cleared.antt =====
-- Which events a fast batch removes from the queue.
use mathlib.Core.List.{Memᴰ}
use gd_sync_harness.Prelude.{
  some_injective, String, ◌≡◌, ◌≢◌, ◌↔◌, ◌⊎◌, ◌∙◌, inl, inr, sym, ap, subst, true, false, some,
  List, [], ◌∷◌, map, arith, All, All-imp, elem, eq_refl, Bool-cases, Option-cases,
}
use gd_sync_harness.Db.Schema.{PendingEvent}
use gd_sync_harness.Db.Ledger.{Store}
use gd_sync_harness.Events.{is_safe_fast_kind, is_version, clear_pending_events}
use gd_sync_harness.Events.Versions.{clear_versions_exact}
use gd_sync_harness.Worker.Fast.{
  FastInputs, uploaded, is_discardable, sort_events, promote, finish_fast, upload_fast, due_batch,
  fast_batch, mark_fast_success,
}

-- The store when the upload is over.
abbrev pub meanwhile : FastInputs → Store → Store
meanwhile i st = record st { db = i.meanwhile st.db }

-- A batch that was uploaded: its events, sorted, and what it committed.
pub record Batch (p : String) (i : FastInputs) (pending : List PendingEvent) (st : Store)
    (paths : List String) : Type 0 where
  pub eligible : List PendingEvent
  pub discardable : List PendingEvent
  pub sorted : sort_events i pending ≡ some (eligible, discardable)
  pub named : map (λ e. e.path) eligible ≡ paths
  pub committed :
      (fast_batch p i pending st).0 ≡ (finish_fast p i eligible discardable (meanwhile i st)).0

upload-uploaded :
    (p : String) (i : FastInputs) (eligible discardable : List PendingEvent) (st : Store)
    (paths : List String)
    → (upload_fast p i eligible discardable st).1 ≡ uploaded paths
    → (map (λ e. e.path) eligible ≡ paths)
      × ((upload_fast p i eligible discardable st).0
          ≡ (finish_fast p i eligible discardable (meanwhile i st)).0)
unfolding upload_fast finish_fast
upload-uploaded p i [] discardable st paths h = ground arith
upload-uploaded p i (e ∷ es) discardable st paths h = (ground arith, ground arith)

due-uploaded :
    (p : String) (i : FastInputs) (e : PendingEvent) (es : List PendingEvent) (st : Store)
    (paths : List String)
    → (due_batch p i e es st).1 ≡ uploaded paths
    → (r : List PendingEvent × List PendingEvent) × (sort_events i (e ∷ es) ≡ some r)
      × (due_batch p i e es st ≡ upload_fast p i r.0 r.1 st)
unfolding due_batch promote
due-uploaded p i e es st paths h = elim (Option-cases (sort_events i (e ∷ es))) [
  | inl n ↦ ground arith
  | inr (r, k) ↦ (r, k, ground arith)
]

fast-due :
    (p : String) (i : FastInputs) (e : PendingEvent) (es : List PendingEvent) (st : Store)
    (paths : List String)
    → (fast_batch p i (e ∷ es) st).1 ≡ uploaded paths
    → fast_batch p i (e ∷ es) st ≡ due_batch p i e es st
unfolding fast_batch
fast-due p i e es st paths h = ground arith

empty-idle :
    (p : String) (i : FastInputs) (st : Store) (paths : List String)
    → (fast_batch p i [] st).1 ≢ uploaded paths
unfolding fast_batch
empty-idle p i st paths h = ground arith

pub uploaded-Batch :
    (p : String) (i : FastInputs) (pending : List PendingEvent) (st : Store) (paths : List String)
    → (fast_batch p i pending st).1 ≡ uploaded paths
    → Batch p i pending st paths
uploaded-Batch p i [] st paths h = absurd (empty-idle p i st paths h)
uploaded-Batch p i (e ∷ es) st paths h =
    let whole = fast-due p i e es st paths h in
    let (r, sorted, same) = due-uploaded p i e es st paths (ap (λ x. x.1) (sym whole) ∙ h) in
    let (named, committed) =
      upload-uploaded p i r.0 r.1 st paths
        (ap (λ x. x.1) (sym same) ∙ ap (λ x. x.1) (sym whole) ∙ h) in
    record {
      eligible = r.0;
      discardable = r.1;
      sorted = sorted;
      named = named;
      committed = ap (λ x. x.0) (whole ∙ same) ∙ committed;
    }

-- Both lists of the sorted events together hold the events.
pub sorted-all :
    (P : PendingEvent → Type 0) (i : FastInputs) (es : List PendingEvent)
    (r : List PendingEvent × List PendingEvent)
    → sort_events i es ≡ some r
    → All P es ↔ (All P r.0 × All P r.1)
unfolding sort_events
sorted-all P i [] r h =
    let same : ([], []) ≡ r = some_injective h in
    subst (λ x. Unit ↔ (All P x.0 × All P x.1)) same (λ u. (tt, tt), λ u. tt)
sorted-all P i (e ∷ es) r h = elim (Bool-cases (is_safe_fast_kind e.event_kind)) [
  | inr b ↦ absurd (ground arith)
  | inl b ↦ elim (Option-cases (sort_events i es)) [
    | inl n ↦ absurd (ground arith)
    | inr (q, k) ↦
        let rest = sorted-all P i es q k in
        elim (Bool-cases (is_discardable i e)) [
          | inl d ↦
              let same : (q.0, e ∷ q.1) ≡ r = some_injective (ground arith) in
              subst (λ x. (P e × All P es) ↔ (All P x.0 × All P x.1)) same
                (λ g. ((rest.0 g.1).0, (g.0, (rest.0 g.1).1)), λ g. (g.1.0, rest.1 (g.0, g.1.1)))
          | inr d ↦
              let same : (e ∷ q.0, q.1) ≡ r = some_injective (ground arith) in
              subst (λ x. (P e × All P es) ↔ (All P x.0 × All P x.1)) same
                (λ g. ((g.0, (rest.0 g.1).0), (rest.0 g.1).1), λ g. (g.0.0, rest.1 (g.0.1, g.1)))
        ]
  ]
]

-- An event of the batch was uploaded, or there was nothing to upload.
abbrev pub Handled : FastInputs → List String → PendingEvent → Type 0
Handled i paths v = (elem v.path paths ≡ true) ⊎ (is_discardable i v ≡ true)

Handled-more :
    (i : FastInputs) (x : String) (paths : List String) (v : PendingEvent)
    → Handled i paths v
    → Handled i (x ∷ paths) v
Handled-more i x paths v h = elim h [ inl m ↦ inl (ground arith) | inr d ↦ inr d ]

eligible-Handled :
    (i : FastInputs) (es : List PendingEvent) → All (Handled i (map (λ e. e.path) es)) es
eligible-Handled i [] = tt
eligible-Handled i (e ∷ es) = (
  inl (ground (arith, eq_refl e.path)),
  All-imp (Handled i (map (λ v. v.path) es)) (Handled i (e.path ∷ map (λ v. v.path) es)) es
      (λ v h. Handled-more i e.path (map (λ v. v.path) es) v h) (eligible-Handled i es),
)

discardable-Handled :
    (i : FastInputs) (paths : List String) (es : List PendingEvent)
    (r : List PendingEvent × List PendingEvent)
    → sort_events i es ≡ some r
    → All (Handled i paths) r.1
unfolding sort_events
discardable-Handled i paths [] r h =
    let same : ([], []) ≡ r = some_injective h in subst (λ x. All (Handled i paths) x.1) same tt
discardable-Handled i paths (e ∷ es) r h = elim (Bool-cases (is_safe_fast_kind e.event_kind)) [
  | inr b ↦ absurd (ground arith)
  | inl b ↦ elim (Option-cases (sort_events i es)) [
    | inl n ↦ absurd (ground arith)
    | inr (q, k) ↦
        let rest = discardable-Handled i paths es q k in
        elim (Bool-cases (is_discardable i e)) [
          | inl d ↦
              let same : (q.0, e ∷ q.1) ≡ r = some_injective (ground arith) in
              subst (λ x. All (Handled i paths) x.1) same (inr d, rest)
          | inr d ↦
              let same : (e ∷ q.0, q.1) ≡ r = some_injective (ground arith) in
              subst (λ x. All (Handled i paths) x.1) same rest
        ]
  ]
]

finished-queue :
    (p : String) (i : FastInputs) (eligible discardable : List PendingEvent) (st : Store)
    (e : PendingEvent)
    → Memᴰ e (finish_fast p i eligible discardable st).0.db.pending_events ↔ (
        Memᴰ e st.db.pending_events
        × (All (λ v. is_version p v e ≡ false) eligible
            × All (λ v. is_version p v e ≡ false) discardable))
unfolding finish_fast mark_fast_success
finished-queue p i eligible discardable st e =
    let first = clear_versions_exact p eligible st.db e in
    let second = clear_versions_exact p discardable (clear_pending_events p eligible st.db) e in
    (
      λ m.
          let (there, gone) = second.0 m in
          let (before, kept) = first.0 there in (before, (kept, gone)),
      λ h. second.1 (first.1 (h.0, h.1.0), h.1.1),
    )

-- A fast batch removes from the queue exactly the versions that it read and handled: whatever others
-- commit while the upload runs, an event that is queued when it is over stays if and only if no event
-- of the batch has its path and its generation or a later one, and every event of the batch was
-- uploaded, or its file was gone or ignored by the policy.
pub fast_batch_cleared :
    (p : String) (i : FastInputs) (pending : List PendingEvent) (st : Store) (paths : List String)
    → (fast_batch p i pending st).1 ≡ uploaded paths
    → All (Handled i paths) pending
      × ((e : PendingEvent)
          → Memᴰ e (fast_batch p i pending st).0.db.pending_events ↔ (
              Memᴰ e (i.meanwhile st.db).pending_events
              × All (λ v. is_version p v e ≡ false) pending))
fast_batch_cleared p i pending st paths h =
    let b = uploaded-Batch p i pending st paths h in
    let r : List PendingEvent × List PendingEvent = (b.eligible, b.discardable) in
    (
      (sorted-all (Handled i paths) i pending r b.sorted).1 (
        subst (λ x. All (Handled i x) b.eligible) b.named (eligible-Handled i b.eligible),
        discardable-Handled i paths pending r b.sorted,
      ),
      λ e.
          let parts = sorted-all (λ v. is_version p v e ≡ false) i pending r b.sorted in
          let queue = finished-queue p i b.eligible b.discardable (meanwhile i st) e in
          rw b.committed (
            λ m. let (there, kept) = queue.0 m in (there, parts.1 kept),
            λ k. queue.1 (k.0, parts.0 k.1),
          ),
    )
