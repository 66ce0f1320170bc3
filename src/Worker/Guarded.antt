-- ===== src/Worker/Guarded.antt =====
-- What an attempt may delete on the remote, and what its success takes.
use gd_sync_harness.Prelude.{
  ℤ, pos, negsuc, lt_count, ◌≤◌, String, Bool, ◌≡◌, refl, subst, sym, true, false, not, ◌&&◌,
  Option, none, some, List, [], ◌∷◌, ◌++◌, inl, inr, arith, All, Bool-cases, Option-cases, elem,
  is_some, length,
}
use gd_sync_harness.Db.Table.{select_where}
use gd_sync_harness.Db.Schema.{Db, Profile, SyncRun, CommittedPolicy, scanning}
use gd_sync_harness.Db.Ledger.{Store, ManifestEntry, is_active}
use gd_sync_harness.Sync.Progress.{update_run_phase, update_run_files_discovered}
use gd_sync_harness.Policy.{mark_policy_refresh_running}
use gd_sync_harness.Manifest.{disappeared, kept_by, classify_disappearances, in_state}
use gd_sync_harness.Manifest.Evidence.{classify-kept}
use gd_sync_harness.Machine.{Reach}
use gd_sync_harness.Reconcile.{effective_delete_limit, Trace, ReconcileError, reconcile_protected}
use gd_sync_harness.Reconcile.Safety.{Cleared, remote_protected}
use gd_sync_harness.Sorted.{All-sorted_paths}
use gd_sync_harness.Worker.Attempt.{
  Inputs, success, proven_deletions, reconcile_attempt, report_phases, finish_attempt,
  attempt_scanned, commit_failure, conclude_attempt, execute_attempt, mark_running,
}

-- The path is not ignored, and the scan did not find it.
abbrev pub MayGo : (String → Bool) → List String → String → Type 0
MayGo excluded scanned x = (excluded x ≡ false) × (elem x scanned ≡ false)

All-prefix : (P : String → Type 0) (xs ys : List String) → All P (xs ++ ys) → All P xs
All-prefix P [] ys h = tt
All-prefix P (x ∷ xs) ys (px, h) = (px, All-prefix P xs ys h)

within_prefix :
    (limit : ℤ) (xs ys : List String)
    → lt_count limit (length (xs ++ ys)) ≡ false
    → lt_count limit (length xs) ≡ false
within_prefix (negsuc m) xs ys h = ground arith
within_prefix (pos m) xs ys h = let most = length-prefix xs ys in ground (arith, most, h)
  where
    length-prefix : (vs ws : List String) → length vs ≤ length (vs ++ ws)
    length-prefix [] ws = omega arith
    length-prefix (v ∷ vs) ws = let ih = length-prefix vs ws in omega (arith, ih)

disappeared-unseen :
    (p : String) (scanned : List String) (es : List ManifestEntry)
    → All (λ x. elem x scanned ≡ false) (disappeared p scanned es)
unfolding disappeared select_where
disappeared-unseen p scanned [] = tt
disappeared-unseen p scanned (e ∷ es) =
    elim (Bool-cases (in_state p is_active e && not (elem e.rel_path scanned))) [
      | inl b ↦ rw b (ground arith, disappeared-unseen p scanned es)
      | inr b ↦ rw b (disappeared-unseen p scanned es)
    ]

kept_by-MayGo :
    (excluded : String → Bool) (scanned paths : List String)
    → All (λ x. elem x scanned ≡ false) paths
    → All (MayGo excluded scanned) (kept_by excluded paths)
unfolding kept_by select_where
kept_by-MayGo excluded scanned [] h = tt
kept_by-MayGo excluded scanned (x ∷ xs) (unseen, h) = elim (Bool-cases (excluded x)) [
  | inl b ↦ rw b (kept_by-MayGo excluded scanned xs h)
  | inr b ↦ rw b ((b, unseen), kept_by-MayGo excluded scanned xs h)
]

proven-MayGo :
    (p : String) (pr : Profile) (run : SyncRun) (i : Inputs) (pol : Option CommittedPolicy)
    (paths : List String) (st : Store)
    → Reach st.db
    → All (MayGo i.excluded paths) (proven_deletions p pr run i pol paths st)
unfolding proven_deletions
proven-MayGo p pr run i none paths st r = tt
proven-MayGo p pr run i (some c) paths st r =
    All-sorted_paths (MayGo i.excluded paths)
      (classify_disappearances p c.policy_hash i.excluded paths st.db.pending_events st.manifest)
      (rw (classify-kept p c.policy_hash i.excluded paths st.db st.manifest r)
        (kept_by-MayGo i.excluded paths _ (disappeared-unseen p paths st.manifest)))

module _ (p : String) (pr : Profile) (run : SyncRun) (i : Inputs) where
  -- The reconciliation of an attempt.
  reconcile_deletes_gone :
      (pol : Option CommittedPolicy) (paths : List String) (st : Store) (db : Db)
      → Reach st.db
      → let proven = proven_deletions p pr run i pol paths st in
        let t = reconcile_attempt p pr run i proven db in
        All (MayGo i.excluded paths) t.deleted
        × ((rest : List String) × (t.deleted ++ rest ≡ proven))
        × (t.uploaded ≡ true → Cleared i.world pr run.effective_max_delete proven)
        × (t.uploaded ≡ false → t.deleted ≡ [])
  unfolding reconcile_attempt
  reconcile_deletes_gone pol paths st db r =
      let proven = proven_deletions p pr run i pol paths st in
      let phases = (reconcile_protected i.world p pr run.effective_max_delete proven db).phases in
      let (clear, quiet, (rest, e), fine, dead) =
        remote_protected i.world p pr run.effective_max_delete proven
          (report_phases p pr run i phases db) in
      (
        All-prefix (MayGo i.excluded paths) _ rest
            (subst (All (MayGo i.excluded paths)) (sym e) (proven-MayGo p pr run i pol paths st r)),
        (rest, e),
        clear,
        λ idle. (quiet idle).0,
      )

  finish-success :
      (error : Option ReconcileError) (pol : Option CommittedPolicy) (paths proven : List String)
      (t u : Trace) (st : Store)
      → (finish_attempt p pr run i error pol paths proven t st).1 ≡ success u
      → (error ≡ none) × (is_some i.entries ≡ true)
  unfolding finish_attempt commit_failure conclude_attempt
  finish-success (some e) pol paths proven t u st h = ground arith
  finish-success none pol paths proven t u st h = (refl, ground arith)

  -- The proven deletions read the queue and the ledger.
  proven_reads :
      (pol : Option CommittedPolicy) (paths : List String) (st : Store) (db : Db)
      → db.pending_events ≡ st.db.pending_events
      → proven_deletions p pr run i pol paths (record st { db = db })
        ≡ proven_deletions p pr run i pol paths st
  unfolding proven_deletions
  proven_reads none paths st db e = refl
  proven_reads (some c) paths st db e = rw e refl

  mark_running-queue :
      (pol : Option CommittedPolicy) (db : Db)
      → (mark_running p pr run i pol db).pending_events ≡ db.pending_events
  unfolding mark_policy_refresh_running
  mark_running-queue none db = refl
  mark_running-queue (some c) db = ground arith

  reconcile-Cleared :
      (proven : List String) (db : Db)
      → (reconcile_attempt p pr run i proven db).error ≡ none
      → Cleared i.world pr run.effective_max_delete proven
  unfolding reconcile_attempt
  reconcile-Cleared proven db h =
      let phases = (reconcile_protected i.world p pr run.effective_max_delete proven db).phases in
      let t = reconcile_attempt p pr run i proven db in
      let (clear, quiet, first, fine, dead) =
        remote_protected i.world p pr run.effective_max_delete proven
          (report_phases p pr run i phases db) in
      elim (Bool-cases t.uploaded) [
        | inl up ↦ clear up
        | inr idle ↦ let (nothing, same, failed) = quiet idle in absurd (failed h)
      ]

  scanned-success :
      (paths : List String) (st : Store) (u : Trace)
      → (attempt_scanned p pr run i paths st).1 ≡ success u
      → (is_some i.entries ≡ true)
        × Cleared i.world pr run.effective_max_delete
            (proven_deletions p pr run i (st.db.policy p) paths st)
  unfolding attempt_scanned update_run_files_discovered
  scanned-success paths st u h =
      let counted = update_run_files_discovered p run.id (length paths) i.counted_at st.db in
      let pol = st.db.policy p in
      let marked : Store = record st { db = mark_running p pr run i pol counted } in
      let proven = proven_deletions p pr run i pol paths marked in
      let t = reconcile_attempt p pr run i proven marked.db in
      let (ended, listed) =
        finish-success t.error pol paths proven t u (record marked { db = t.db }) h in
      (
        listed,
        subst (Cleared i.world pr run.effective_max_delete)
            (proven_reads pol paths st marked.db (mark_running-queue pol counted))
            (reconcile-Cleared proven marked.db ended),
      )

  -- An attempt whose scan succeeds is concluded from its reconciliation with the proven deletions.
  ended :
      (paths : List String) (st : Store)
      → i.ownership ≡ none
      → i.scan ≡ some paths
      → let pol = st.db.policy p in
        let begun = update_run_phase p run.id scanning (i.phase_at scanning) st.db in
        let counted = update_run_files_discovered p run.id (length paths) i.counted_at begun in
        let proven = proven_deletions p pr run i pol paths st in
        let t = reconcile_attempt p pr run i proven (mark_running p pr run i pol counted) in
        execute_attempt p pr run i st
        ≡ finish_attempt p pr run i t.error pol paths proven t (record st { db = t.db })
  unfolding execute_attempt attempt_scanned update_run_phase update_run_files_discovered
  ended paths st owned scanned =
      let pol = st.db.policy p in
      let begun = update_run_phase p run.id scanning (i.phase_at scanning) st.db in
      let counted = update_run_files_discovered p run.id (length paths) i.counted_at begun in
      rw
        (
          execute_attempt,
          owned,
          scanned,
          attempt_scanned,
          proven_reads pol paths st (mark_running p pr run i pol counted)
              (mark_running-queue pol counted),
        )
        refl

  -- No attempt deletes what it may not: in a reachable database, an attempt whose ownership is valid
  -- and whose scan succeeds is concluded from the trace of one reconciliation, that of the proven
  -- deletions of the scan. The paths that this deletes on the remote, whatever rclone answers, are paths that the scan did not find and that the
  -- committed policy does not ignore, and no more than the limit; where the upload ran the
  -- reconciliation was cleared for the proven deletions of that scan, and where it did not run
  -- nothing was deleted.
  pub attempt_deletes_gone :
      (paths : List String) (st : Store)
      → Reach st.db
      → i.ownership ≡ none
      → i.scan ≡ some paths
      → (begun : Db) × (t : Trace) × (t
          ≡ reconcile_attempt p pr run i
              (proven_deletions p pr run i (st.db.policy p) paths st)
              begun)
        × (execute_attempt p pr run i st
            ≡ finish_attempt p pr run i t.error
                (st.db.policy p)
                paths
                (proven_deletions p pr run i (st.db.policy p) paths st)
                t
                (record st { db = t.db }))
        × All (MayGo i.excluded paths) t.deleted
        × (t.uploaded ≡ true
            → lt_count (effective_delete_limit run.effective_max_delete pr) (length t.deleted)
              ≡ false)
        × (t.uploaded ≡ true
            → Cleared i.world pr run.effective_max_delete
                (proven_deletions p pr run i (st.db.policy p) paths st))
        × (t.uploaded ≡ false → t.deleted ≡ [])
  attempt_deletes_gone paths st reach owned scanned =
      let pol = st.db.policy p in
      let begun : Store = record st {
        db = update_run_phase p run.id scanning (i.phase_at scanning) st.db;
      } in
      let counted = update_run_files_discovered p run.id (length paths) i.counted_at begun.db in
      let marked = mark_running p pr run i pol counted in
      let proven = proven_deletions p pr run i pol paths st in
      let t = reconcile_attempt p pr run i proven marked in
      let (gone, (rest, first), clear, quiet) = reconcile_deletes_gone pol paths st marked reach in
      let limit = effective_delete_limit run.effective_max_delete pr in
      (
        marked,
        t,
        refl,
        ended paths st owned scanned,
        gone,
        λ up.
            within_prefix limit t.deleted rest
              (subst (λ l. lt_count limit (length l) ≡ false) (sym first) (clear up).within),
        clear,
        quiet,
      )

  -- The success of an attempt takes that the ownership of the remote is valid, that the scan and the
  -- scan for the ledger succeed, and that the reconciliation was cleared for the proven deletions of
  -- that scan: the source was stable over the dry run, the remote had no duplicates, and there were
  -- no more proven deletions than the attempt's limit.
  pub attempt_success :
      (st : Store) (u : Trace)
      → (execute_attempt p pr run i st).1 ≡ success u
      → (i.ownership ≡ none)
        × (is_some i.entries ≡ true)
        × ((paths : List String) × (i.scan ≡ some paths)
            × Cleared i.world pr run.effective_max_delete
                (proven_deletions p pr run i (st.db.policy p) paths st))
  unfolding execute_attempt commit_failure update_run_phase
  attempt_success st u h = elim (Option-cases i.ownership) [
    | inr (x, e) ↦ ground arith
    | inl n ↦ elim (Option-cases i.scan) [
      | inl k ↦ ground arith
      | inr (paths, k) ↦
          let begun : Store = record st {
            db = update_run_phase p run.id scanning (i.phase_at scanning) st.db;
          } in
          let goes_on : (attempt_scanned p pr run i paths begun).1 ≡ success u = ground arith in
          let (listed, clear) = scanned-success paths begun u goes_on in
          (
            n,
            listed,
            (
              paths,
              k,
              subst (Cleared i.world pr run.effective_max_delete)
                  (proven_reads (st.db.policy p) paths st begun.db refl) clear,
            ),
          )
    ]
  ]
