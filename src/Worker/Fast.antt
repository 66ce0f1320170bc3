-- ===== src/Worker/Fast.antt =====
-- The fast batch: runFastUpsertBatchPending of internal/cli/fastupsert.go, with MarkFastSuccess and
-- SetLastError of internal/state/runtime.go. The answers of os.Stat, of the matcher of the policy and
-- of the upload are inputs, and so is what other processes commit while the upload runs.
pub mod Cleared
pub mod Ledgered
use gd_sync_harness.Prelude.{
  ◌++◌, ℕ, ◌+◌, ◌*◌, ℤ, max, min, String, Bool, true, false, not, ◌||◌, Option, none, some, List,
  [], ◌∷◌, map, leb, is_some, if◌then◌else◌,
}
use mathlib.Core.Option
use gd_sync_harness.Db.Schema.{Db, PendingEvent, ProfileSyncState, Err, not_found}
use gd_sync_harness.Db.Ledger.{Store, ManifestEntry, EntryState}
use gd_sync_harness.Sync.{has_debt, update_runtime}
use gd_sync_harness.Events.{
  is_safe_fast_kind, has_destructive_pending, clear_pending_events, promote_to_full_reconcile,
}
use gd_sync_harness.Manifest.{manifest_upsert}

-- fastSettings, in milliseconds
abbrev settle_ms : ℕ
settle_ms = 3 * 1000

abbrev max_delay_ms : ℕ
max_delay_ms = 30 * 1000

-- What os.Stat tells of a file.
pub record FileInfo : Type 0 where
  pub size : ℕ
  pub mod_time : ℤ

pub record FastInputs : Type 0 where
  pub now : ℕ
  -- os.Stat, when the events are sorted, and after the upload
  pub is_there : String → Bool
  pub stat_after : String → Option FileInfo
  -- ExcludedDir, of the committed policy
  pub excluded : String → Bool
  -- FastUpsert: none, or its error
  pub upload_error : Option String
  -- What others commit while the upload runs.
  pub meanwhile : Db → Db
  pub done_at : ℕ

pub data FastOutcome : Type 0 where
  -- there is debt, a current run, or no event
  yielded : FastOutcome
  promoted waiting consumed : FastOutcome
  uploaded : List String → FastOutcome
  failed : String → FastOutcome
  refused : Err → FastOutcome

-- The times of a batch: the earliest first_seen and the latest last_seen.
unfoldable pub earliest : PendingEvent → List PendingEvent → ℕ
earliest e [] = e.first_seen
earliest e (f ∷ es) = min e.first_seen (earliest f es)

unfoldable pub latest : PendingEvent → List PendingEvent → ℕ
latest e [] = e.last_seen
latest e (f ∷ es) = max e.last_seen (latest f es)

unfoldable pub is_due : ℕ → PendingEvent → List PendingEvent → Bool
unfolding earliest latest
is_due now e es = leb (latest e es + settle_ms) now || leb (earliest e es + max_delay_ms) now

-- An event that has nothing to upload: its file is gone, or the policy ignores it.
abbrev pub is_discardable : FastInputs → PendingEvent → Bool
is_discardable i e = not (i.is_there e.path) || i.excluded e.path

-- The eligible and the discardable events, or none where a kind is not a safe one.
unfoldable pub sort_events :
    FastInputs → List PendingEvent → Option (List PendingEvent × List PendingEvent)
sort_events i [] = some ([], [])
sort_events i (e ∷ es) =
    let rest = sort_events i es in
    if not (is_safe_fast_kind e.event_kind)
    then none
    else if is_discardable i e
    then Option.map (λ r. (r.0, e ∷ r.1)) rest
    else Option.map (λ r. (e ∷ r.0, r.1)) rest

-- MarkFastSuccess
unfoldable pub mark_fast_success : String → ℕ → Db → Db
mark_fast_success p now db =
    update_runtime p (λ r. record r { last_fast_success = some now; last_error = none }) db

-- SetLastError
unfoldable pub set_last_error : String → String → Db → Db
set_last_error p message db = update_runtime p (λ r. record r { last_error = some message }) db

abbrev pub entry_of : String → String → FileInfo → ManifestEntry
entry_of p path f = record {
  profile_id = p;
  rel_path = path;
  size = f.size;
  mod_time = f.mod_time;
  hash = "";
  state = EntryState.active;
  suppressed_policy_hash = none;
  suppressed_generation = none;
}

abbrev pub record_upload :
    String → String → Option FileInfo → List ManifestEntry → List ManifestEntry
record_upload p path none es = es
record_upload p path (some f) es = manifest_upsert (entry_of p path f) none es

-- The ledger rows of the files that are still there after the upload.
unfoldable pub record_uploads :
    String → FastInputs → List String → List ManifestEntry → List ManifestEntry
record_uploads p i [] es = es
record_uploads p i (path ∷ paths) es =
    record_uploads p i paths (record_upload p path (i.stat_after path) es)

-- PromoteToFullReconcile at the source's generation
unfoldable pub promote : String → ℕ → Store → Store × FastOutcome
promote p now st = elim (st.db.runtime p) [
  | none ↦ (st, refused not_found)
  | some r ↦
      (record st { db = promote_to_full_reconcile p r.source_generation now st.db }, promoted)
]

-- The statements after a successful upload, in their order: the rows of the ledger, the two deletes of
-- the queue, and the mark of the success.
abbrev pub with_ledger : String → FastInputs → List String → Store → Store
with_ledger p i paths st = record st { manifest = record_uploads p i paths st.manifest }

abbrev pub without_events : String → List PendingEvent → Store → Store
without_events p events st = record st { db = clear_pending_events p events st.db }

abbrev pub with_success : String → FastInputs → Store → Store
with_success p i st = record st { db = mark_fast_success p i.done_at st.db }

-- What a successful upload commits.
unfoldable pub finish_fast :
    String → FastInputs → List PendingEvent → List PendingEvent → Store → Store × FastOutcome
unfolding record_uploads mark_fast_success
finish_fast p i eligible discardable st =
    let paths = map (λ e. e.path) eligible in
    (
      with_success p i
          (without_events p discardable (without_events p eligible (with_ledger p i paths st))),
      uploaded paths,
    )

-- The stores after each row of the ledger.
unfoldable pub ledger_steps : String → FastInputs → List String → Store → List Store
unfolding record_uploads
ledger_steps p i [] st = []
ledger_steps p i (path ∷ paths) st =
    let next = with_ledger p i (path ∷ []) st in next ∷ ledger_steps p i paths next

-- The stores that finish_fast commits one after the other, each of which an interruption may leave.
unfoldable pub finish_steps :
    String → FastInputs → List PendingEvent → List PendingEvent → Store → List Store
unfolding ledger_steps record_uploads
finish_steps p i eligible discardable st =
    let paths = map (λ e. e.path) eligible in
    let recorded = with_ledger p i paths st in
    let cleared = without_events p eligible recorded in
    let emptied = without_events p discardable cleared in
    st ∷ (ledger_steps p i paths st ++ (cleared ∷ emptied ∷ with_success p i emptied ∷ []))

-- From the sorted events on.
unfoldable pub upload_fast :
    String → FastInputs → List PendingEvent → List PendingEvent → Store → Store × FastOutcome
unfolding finish_fast set_last_error
upload_fast p i [] discardable st =
    (record st { db = clear_pending_events p discardable st.db }, consumed)
upload_fast p i (e ∷ es) discardable st =
    let later : Store = record st { db = i.meanwhile st.db } in
    elim i.upload_error [
      | some message ↦ (record later { db = set_last_error p message later.db }, failed message)
      | none ↦ finish_fast p i (e ∷ es) discardable later
    ]

-- From the destructive events on.
unfoldable pub due_batch :
    String → FastInputs → PendingEvent → List PendingEvent → Store → Store × FastOutcome
unfolding promote is_due sort_events upload_fast
due_batch p i e es st =
    if has_destructive_pending p st.db
    then promote p i.now st
    else if not (is_due i.now e es)
    then (st, waiting)
    else (elim (sort_events i (e ∷ es)) [
      | none ↦ promote p i.now st
      | some r ↦ upload_fast p i r.0 r.1 st
    ])

-- runFastUpsertBatchPending
unfoldable pub fast_batch : String → FastInputs → List PendingEvent → Store → Store × FastOutcome
unfolding due_batch
fast_batch p i pending st = elim (st.db.sync_state p) [
  | none ↦ (st, refused not_found)
  | some s ↦
      if has_debt s || is_some s.current_run_id
      then (st, yielded)
      else (elim pending [ [] ↦ (st, yielded) | e ∷ es ↦ due_batch p i e es st ])
]
