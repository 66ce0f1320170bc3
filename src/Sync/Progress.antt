-- ===== src/Sync/Progress.antt =====
-- What a worker reports about its attempt: UpdateRunPhase, UpdateRunFilesDiscovered and
-- UpdateRunHeartbeat of internal/state/syncstate.go. The two statements of each are not one
-- transaction in the source; here both succeed.
use gd_sync_harness.Prelude.{
  ℕ, String, Bool, true, false, Option, none, some, get_or, if◌then◌else◌, ◌≡◌, All, ◌∷◌, [], List,
  inl, inr, Bool-cases, refl, eq_refl, arith,
}
use gd_sync_harness.Db.Table.{update_where}
use gd_sync_harness.Db.Table.Laws.{update_where-none}
use gd_sync_harness.Db.Schema.{Db, ProfileSyncState, SyncRun, Phase, uploading}
use gd_sync_harness.Sync.{update_sync}
use gd_sync_harness.Sync.Commit.{is_live_run, succeed_run, settle, commit_run_success}

abbrev is_uploading : Phase → Bool
is_uploading uploading = true
is_uploading _ = false

-- upload_started_at = CASE WHEN ? = 'uploading' THEN COALESCE(upload_started_at, ?) ELSE … END
abbrev upload_start : Phase → ℕ → Option ℕ → Option ℕ
upload_start phase now before = if is_uploading phase then some (get_or now before) else before

unfoldable pub enter_phase : Phase → ℕ → SyncRun → SyncRun
enter_phase phase now r = record r {
  phase = phase;
  upload_started_at = upload_start phase now r.upload_started_at;
}

-- UpdateRunPhase
unfoldable pub update_run_phase : String → String → Phase → ℕ → Db → Db
unfolding enter_phase
update_run_phase p run_id phase now db =
    let db1 = record db {
      sync_runs = update_where (is_live_run p run_id) (enter_phase phase now) db.sync_runs;
    } in
    update_sync p (λ s. record s { phase = some phase }) db1

-- UpdateRunFilesDiscovered
unfoldable pub update_run_files_discovered : String → String → ℕ → ℕ → Db → Db
update_run_files_discovered p run_id files now db =
    let db1 = record db {
      sync_runs =
          update_where (is_live_run p run_id)
            (λ r. record r { files_discovered = files; last_progress_at = some now }) db.sync_runs;
    } in
    update_sync p (λ s. record s { last_progress_at = some now; last_heartbeat_at = some now }) db1

-- UpdateRunHeartbeat
unfoldable pub update_run_heartbeat : String → String → ℕ → Db → Db
update_run_heartbeat p run_id now db =
    let db1 = record db {
      sync_runs =
          update_where (is_live_run p run_id) (λ r. record r { last_heartbeat_at = some now })
            db.sync_runs;
    } in
    update_sync p (λ s. record s { last_heartbeat_at = some now }) db1

-- COALESCE(?, last_progress_at), where the argument is NULL unless the frame was measurable
abbrev pub progress_after : Bool → ℕ → Option ℕ → Option ℕ
progress_after measurable now before = if measurable then some now else before

-- UpdateRunStats, without the columns of the statistics
unfoldable pub update_run_stats : String → String → Bool → ℕ → Db → Db
update_run_stats p run_id measurable now db =
    let db1 = record db {
      sync_runs =
          update_where (is_live_run p run_id)
            (λ r. record r {
              last_heartbeat_at = some now;
              last_progress_at = progress_after measurable now r.last_progress_at;
            })
            db.sync_runs;
    } in
    update_sync p
      (λ s. record s {
        last_heartbeat_at = some now;
        last_progress_at = progress_after measurable now s.last_progress_at;
      })
      db1

-- After its success an attempt is not running.
pub succeed-not_live :
    (p run_id : String) (now : ℕ) (rs : List SyncRun)
    → All
        (λ r. is_live_run p run_id r ≡ false)
        (update_where (is_live_run p run_id) (succeed_run now) rs)
unfolding update_where succeed_run
succeed-not_live p run_id now [] = tt
succeed-not_live p run_id now (r ∷ rs) = elim (Bool-cases (is_live_run p run_id r)) [
  | inl b ↦ rw b (ground arith, succeed-not_live p run_id now rs)
  | inr b ↦ rw b (b, succeed-not_live p run_id now rs)
]

-- A report that arrives after the attempt has succeeded changes no attempt, but still the row of
-- the profile, if it has one: a phase is put back where the success had cleared it, although no
-- attempt is current, and a heartbeat or a count of files puts its time there. Nothing else of the
-- row changes.
late_report :
    (p run_id : String) (target done late files : ℕ) (phase : Phase) (db : Db)
    (s : ProfileSyncState)
    → db.sync_state p ≡ some s
    → let after = commit_run_success p run_id target done db in
      let row = settle target done s in
      let phased = update_run_phase p run_id phase late after in
      let counted = update_run_files_discovered p run_id files late after in
      let beaten = update_run_heartbeat p run_id late after in
      (row.current_run_id ≡ none)
      × ((phased.sync_runs ≡ after.sync_runs)
          × (phased.sync_state p ≡ some (record row { phase = some phase })))
      × ((counted.sync_runs ≡ after.sync_runs)
          × (counted.sync_state p
              ≡ some (record row { last_progress_at = some late; last_heartbeat_at = some late })))
      × ((beaten.sync_runs ≡ after.sync_runs)
          × (beaten.sync_state p ≡ some (record row { last_heartbeat_at = some late })))
unfolding update_run_phase update_run_files_discovered update_run_heartbeat commit_run_success
    settle
late_report p run_id target done late files phase db s e =
    let ended = succeed-not_live p run_id done db.sync_runs in
    (
      refl,
      (update_where-none _ _ _ ended, ground (arith, eq_refl p)),
      (update_where-none _ _ _ ended, ground (arith, eq_refl p)),
      (update_where-none _ _ _ ended, ground (arith, eq_refl p)),
    )
