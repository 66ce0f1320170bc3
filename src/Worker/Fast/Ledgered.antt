-- ===== src/Worker/Fast/Ledgered.antt =====
-- What a fast batch leaves in the ledger, and what a failed one leaves.
use gd_sync_harness.Prelude.{
  String, Bool, ◌≡◌, ◌⊎◌, ◌∙◌, inl, inr, refl, sym, ap, subst, true, Option, none, some, List, [],
  ◌∷◌, ◌++◌, All-append, map, arith, All, eq_refl, Bool-cases, Option-cases,
}
use mathlib.Core.List.{append_assoc}
use gd_sync_harness.Db.Table.{exists_where, upsert_where}
use gd_sync_harness.Db.Schema.{PendingEvent}
use gd_sync_harness.Db.Ledger.{Store, ManifestEntry}
use gd_sync_harness.Manifest.{entry_at, manifest_upsert}
use gd_sync_harness.Worker.Fast.{
  FastInputs, FileInfo, uploaded, failed, entry_of, record_uploads, record_upload, sort_events,
  with_ledger, without_events, with_success, ledger_steps, finish_steps, finish_fast, upload_fast,
  due_batch, fast_batch, promote, set_last_error,
}
use gd_sync_harness.Worker.Fast.Cleared.{meanwhile, uploaded-Batch}

abbrev pub has_entry : String → String → List ManifestEntry → Bool
has_entry p path es = exists_where (entry_at p path) es

upserted-has :
    (p path : String) (f : FileInfo) (es : List ManifestEntry)
    → has_entry p path (manifest_upsert (entry_of p path f) none es) ≡ true
unfolding manifest_upsert upsert_where exists_where
upserted-has p path f [] = ground (arith, eq_refl p, eq_refl path)
upserted-has p path f (e ∷ es) = ground (arith, upserted-has p path f es)

upsert-keeps :
    (p path x : String) (f : FileInfo) (es : List ManifestEntry)
    → has_entry p x es ≡ true
    → has_entry p x (manifest_upsert (entry_of p path f) none es) ≡ true
unfolding manifest_upsert upsert_where exists_where
upsert-keeps p path x f [] h = ground arith
upsert-keeps p path x f (e ∷ es) h = elim (Bool-cases (has_entry p x es)) [
  | inl b ↦ ground (arith, upsert-keeps p path x f es b)
  | inr b ↦ ground arith
]

record_upload-keeps :
    (p x path : String) (f : Option FileInfo) (es : List ManifestEntry)
    → has_entry p x es ≡ true
    → has_entry p x (record_upload p path f es) ≡ true
record_upload-keeps p x path none es h = h
record_upload-keeps p x path (some f) es h = upsert-keeps p path x f es h

record_uploads-keeps :
    (p x : String) (i : FastInputs) (paths : List String) (es : List ManifestEntry)
    → has_entry p x es ≡ true
    → has_entry p x (record_uploads p i paths es) ≡ true
unfolding record_uploads
record_uploads-keeps p x i [] es h = h
record_uploads-keeps p x i (path ∷ paths) es h =
    record_uploads-keeps p x i paths (record_upload p path (i.stat_after path) es)
      (record_upload-keeps p x path (i.stat_after path) es h)

-- The file is gone after the upload, or the ledger has it.
abbrev pub Ledgered : String → FastInputs → List ManifestEntry → String → Type 0
Ledgered p i es path = (i.stat_after path ≡ none) ⊎ (has_entry p path es ≡ true)

record_uploads-Ledgered :
    (p : String) (i : FastInputs) (paths : List String) (es : List ManifestEntry)
    → All (Ledgered p i (record_uploads p i paths es)) paths
unfolding record_uploads
record_uploads-Ledgered p i [] es = tt
record_uploads-Ledgered p i (path ∷ paths) es =
    let rows = record_upload p path (i.stat_after path) es in
    (
      elim (Option-cases (i.stat_after path)) [
        | inl n ↦ inl n
        | inr (f, k) ↦ inr (
            record_uploads-keeps p path i paths rows (
              subst (λ o. has_entry p path (record_upload p path o es) ≡ true) (sym k)
                (upserted-has p path f es)))
      ],
      record_uploads-Ledgered p i paths rows,
    )

finish_fast-manifest :
    (p : String) (i : FastInputs) (eligible discardable : List PendingEvent) (st : Store)
    → (finish_fast p i eligible discardable st).0.manifest
      ≡ record_uploads p i (map (λ e. e.path) eligible) st.manifest
unfolding finish_fast
finish_fast-manifest p i eligible discardable st = refl

-- What is uploaded is in the ledger of the store that the batch leaves.
batch-Ledgered :
    (p : String) (i : FastInputs) (pending : List PendingEvent) (st : Store) (paths : List String)
    → (fast_batch p i pending st).1 ≡ uploaded paths
    → All (Ledgered p i (fast_batch p i pending st).0.manifest) paths
batch-Ledgered p i pending st paths h =
    let b = uploaded-Batch p i pending st paths h in
    rw b.committed (
      subst
        (λ x.
          All (Ledgered p i (finish_fast p i b.eligible b.discardable (meanwhile i st)).0.manifest)
            x)
        b.named
        (rw (finish_fast-manifest p i b.eligible b.discardable (meanwhile i st))
          (record_uploads-Ledgered p i (map (λ e. e.path) b.eligible) st.manifest)))

-- The queue is untouched, or the ledger has every path.
abbrev pub IsBarred : String → FastInputs → List String → List PendingEvent → Store → Type 0
IsBarred p i paths queue s = (s.db.pending_events ≡ queue) ⊎ All (Ledgered p i s.manifest) paths

ledger_steps-IsBarred :
    (p : String) (i : FastInputs) (all paths : List String) (queue : List PendingEvent) (st : Store)
    → st.db.pending_events ≡ queue
    → All (IsBarred p i all queue) (ledger_steps p i paths st)
unfolding ledger_steps
ledger_steps-IsBarred p i all [] queue st e = tt
ledger_steps-IsBarred p i all (path ∷ paths) queue st e =
    (inl e, ledger_steps-IsBarred p i all paths queue (with_ledger p i (path ∷ []) st) e)

finish_steps-IsBarred :
    (p : String) (i : FastInputs) (eligible discardable : List PendingEvent) (st : Store)
    → All
        (IsBarred p i (map (λ e. e.path) eligible) st.db.pending_events)
        (finish_steps p i eligible discardable st)
unfolding finish_steps
finish_steps-IsBarred p i eligible discardable st =
    let paths = map (λ e. e.path) eligible in
    let queue = st.db.pending_events in
    let recorded = record_uploads-Ledgered p i paths st.manifest in
    (
      inl refl,
      All-append (IsBarred p i paths queue) (ledger_steps p i paths st) _
          (ledger_steps-IsBarred p i paths paths queue st refl)
          (inr recorded, (inr recorded, (inr recorded, tt))),
    )

-- The last of the stores is the one that the batch leaves.
finish_steps-last :
    (p : String) (i : FastInputs) (eligible discardable : List PendingEvent) (st : Store)
    → (before : List Store) × (finish_steps p i eligible discardable st
        ≡ before ++ ((finish_fast p i eligible discardable st).0 ∷ []))
unfolding finish_steps finish_fast
finish_steps-last p i eligible discardable st =
    let paths = map (λ e. e.path) eligible in
    let cleared = without_events p eligible (with_ledger p i paths st) in
    let emptied = without_events p discardable cleared in
    (
      st ∷ (ledger_steps p i paths st ++ (cleared ∷ emptied ∷ [])),
      ap (λ l. st ∷ l)
          (sym (
            append_assoc (ledger_steps p i paths st) (cleared ∷ emptied ∷ [])
              (with_success p i emptied ∷ []))),
    )

-- The ledger comes before the queue. A batch that has uploaded its paths commits its statements one
-- after the other, from the store that it meets after the upload to the one that it leaves; in each
-- of these stores, which an interruption may leave, the queue is still as it was after the upload,
-- or each uploaded file is gone again or has a row in the ledger.
pub fast_batch-IsBarred :
    (p : String) (i : FastInputs) (pending : List PendingEvent) (st : Store) (paths : List String)
    → (fast_batch p i pending st).1 ≡ uploaded paths
    → (eligible : List PendingEvent) × (discardable : List PendingEvent) × (sort_events i pending
        ≡ some (eligible, discardable))
      × ((before : List Store) × (finish_steps p i eligible discardable (meanwhile i st)
            ≡ before ++ ((fast_batch p i pending st).0 ∷ [])))
      × All
          (IsBarred p i paths (i.meanwhile st.db).pending_events)
          (finish_steps p i eligible discardable (meanwhile i st))
fast_batch-IsBarred p i pending st paths h =
    let b = uploaded-Batch p i pending st paths h in
    let later = meanwhile i st in
    (
      b.eligible,
      b.discardable,
      b.sorted,
      rw b.committed (finish_steps-last p i b.eligible b.discardable later),
      subst
          (λ x.
            All (IsBarred p i x (i.meanwhile st.db).pending_events)
              (finish_steps p i b.eligible b.discardable later))
          b.named (finish_steps-IsBarred p i b.eligible b.discardable later),
    )

upload-failed :
    (p : String) (i : FastInputs) (eligible discardable : List PendingEvent) (st : Store)
    (message : String)
    → (upload_fast p i eligible discardable st).1 ≡ failed message
    → let after = (upload_fast p i eligible discardable st).0 in
      (after.db.pending_events ≡ (i.meanwhile st.db).pending_events)
      × (after.manifest ≡ st.manifest)
unfolding upload_fast finish_fast set_last_error
upload-failed p i [] discardable st message h = ground arith
upload-failed p i (e ∷ es) discardable st message h = (ground arith, ground arith)

due-failed :
    (p : String) (i : FastInputs) (e : PendingEvent) (es : List PendingEvent) (st : Store)
    (message : String)
    → (due_batch p i e es st).1 ≡ failed message
    → (r : List PendingEvent × List PendingEvent) × (due_batch p i e es st
        ≡ upload_fast p i r.0 r.1 st)
unfolding due_batch promote
due-failed p i e es st message h = elim (Option-cases (sort_events i (e ∷ es))) [
  | inl n ↦ ground arith
  | inr (r, k) ↦ (r, ground arith)
]

-- A fast batch whose upload fails keeps the queue and the ledger: the same events are tried again.
fast_batch_failed :
    (p : String) (i : FastInputs) (pending : List PendingEvent) (st : Store) (message : String)
    → (fast_batch p i pending st).1 ≡ failed message
    → let after = (fast_batch p i pending st).0 in
      (after.db.pending_events ≡ (i.meanwhile st.db).pending_events)
      × (after.manifest ≡ st.manifest)
unfolding fast_batch
fast_batch_failed p i [] st message h = ground arith
fast_batch_failed p i (e ∷ es) st message h =
    let whole : fast_batch p i (e ∷ es) st ≡ due_batch p i e es st = ground arith in
    let (r, same) = due-failed p i e es st message (ap (λ x. x.1) (sym whole) ∙ h) in
    rw (whole, same) (upload-failed p i r.0 r.1 st message (ap (λ x. x.1) (sym (whole ∙ same)) ∙ h))
