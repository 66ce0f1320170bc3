-- ===== src/Manifest/Evidence.antt =====
-- Which disappearances of a reachable database are deletions, and which are suppressed.
use mathlib.Core.List.{Memᴰ}
use gd_sync_harness.Prelude.{String, ◌≡◌, refl, Bool, false, ◌&&◌, List, All-imp, arith}
use gd_sync_harness.Db.Table.Laws.{select_where-nil}
use gd_sync_harness.Db.Schema.{Db, PendingEvent}
use gd_sync_harness.Events.{is_of, is_destructive}
use gd_sync_harness.Db.Ledger.{ManifestEntry}
use gd_sync_harness.Manifest.{disappeared, proves, kept_by, classify_disappearances}
use gd_sync_harness.Machine.{Reach}
use gd_sync_harness.Machine.Queueing.{Reach-queue_safe}

proves-destructive :
    (p committed_hash : String) (excluded : String → Bool) (gone : List String) (e : PendingEvent)
    → (is_of p e && is_destructive e.event_kind) ≡ false
    → (is_of p e && proves committed_hash excluded gone e) ≡ false
proves-destructive p committed_hash excluded gone e safe = ground arith

-- In a reachable database no queued event proves a deletion.
pub classify-kept :
    (p committed_hash : String) (excluded : String → Bool) (scanned : List String) (db : Db)
    (es : List ManifestEntry)
    → Reach db
    → classify_disappearances p committed_hash excluded scanned db.pending_events es
      ≡ kept_by excluded (disappeared p scanned es)
unfolding classify_disappearances
classify-kept p committed_hash excluded scanned db es reach =
    rw
      (select_where-nil
        (λ e. is_of p e && proves committed_hash excluded (disappeared p scanned es) e)
        db.pending_events
        (All-imp _ _ _
          (λ e safe. proves-destructive p committed_hash excluded (disappeared p scanned es) e safe)
          (Reach-queue_safe reach p)))
      refl
