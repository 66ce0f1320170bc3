-- ===== src/Machine/Keeps.antt =====
-- Each transaction keeps every profile well formed.
use gd_sync_harness.Prelude.{ℕ, String, ◌≡◌, refl, inl, inr, some, eq_refl, arith, Option-cases}
use gd_sync_harness.Db.Schema.{Db}
use gd_sync_harness.Sync.{
  update_sync, ensure_sync_state, request_reconcile, request_desired, request_state, raise_desired,
  ensure_reconcile_generation, schedule_destructive_reconcile, open_window, reopen,
  reopen_sync_gate, source_generation, at_least_one,
}
use gd_sync_harness.Sync.Invariant.{
  new_row-IsSound, request-IsSound, raise_desired-IsSound, open_window-IsSound, reopen-IsSound,
  manual-IsSound, scheduled-IsSound,
}
use gd_sync_harness.Sync.Intent.{
  ManualReconcileIntent, clear_gate, advance, attach, mark_owing, submit_manual_reconcile,
  submit_scheduled_reconcile,
}
use gd_sync_harness.Events.{collapse, promote_to_full_reconcile}
use gd_sync_harness.Machine.Owned.{
  WellFormed, Raises, WellFormed-raise, WellFormed-raise_twice, WellFormed-write, Owned-mono,
}

-- EnsureSyncState adds a row to a profile that has none, and that therefore runs nothing.
pub ensure-WellFormed :
    (p q : String) (db : Db) → WellFormed q db → WellFormed q (ensure_sync_state p db)
unfolding ensure_sync_state
ensure-WellFormed p q db w = elim (Option-cases (db.sync_state q)) [
  | inl e ↦ ground (arith, new_row-IsSound 0)
  | inr (s, e) ↦ ground arith
]

raise_desired-Raises : (n : ℕ) → Raises (raise_desired n)
unfolding raise_desired
raise_desired-Raises n = record {
  sound = raise_desired-IsSound n;
  current = λ s. refl;
  desired = λ s. omega arith;
}

request_desired-Raises : (n : ℕ) → Raises (λ s. request_state (request_desired n s))
unfolding request_desired request_state
request_desired-Raises n = record {
  sound = request-IsSound n;
  current = λ s. refl;
  desired = λ s. omega arith;
}

open_window-Raises : (now : ℕ) → Raises (open_window now)
unfolding open_window
open_window-Raises now = record {
  sound = open_window-IsSound now;
  current = λ s. refl;
  desired = λ s. omega arith;
}

reopen-Raises : Raises reopen
unfolding reopen
reopen-Raises = record { sound = reopen-IsSound; current = λ s. refl; desired = λ s. omega arith }

scheduled-Raises : (n : ℕ) → Raises (λ s. mark_owing (advance n s))
unfolding mark_owing advance
scheduled-Raises n = record {
  sound = scheduled-IsSound n;
  current = λ s. refl;
  desired = λ s. omega arith;
}

pub request-WellFormed :
    (p q : String) (db : Db) → WellFormed q db → WellFormed q (request_reconcile p db)
unfolding request_reconcile
request-WellFormed p q db w =
    WellFormed-raise_twice (request_desired n) request_state p q (ensure_sync_state p db)
      (request_desired-Raises n) (ensure-WellFormed p q db w)
  where
    n : ℕ
    n = source_generation p (ensure_sync_state p db)

pub ensure_generation-WellFormed :
    (p q : String) (n : ℕ) (db : Db)
    → WellFormed q db
    → WellFormed q (ensure_reconcile_generation p n db)
unfolding ensure_reconcile_generation
ensure_generation-WellFormed p q n db w =
    WellFormed-raise (raise_desired (at_least_one n)) p q db (raise_desired-Raises _) w

pub schedule-WellFormed :
    (p q : String) (n now : ℕ) (db : Db)
    → WellFormed q db
    → WellFormed q (schedule_destructive_reconcile p n now db)
unfolding schedule_destructive_reconcile
schedule-WellFormed p q n now db w =
    WellFormed-raise (open_window now) p q (ensure_reconcile_generation p n db)
      (open_window-Raises now) (ensure_generation-WellFormed p q n db w)

pub reopen-WellFormed :
    (p q : String) (db : Db) → WellFormed q db → WellFormed q (reopen_sync_gate p db)
unfolding reopen_sync_gate
reopen-WellFormed p q db w = WellFormed-raise reopen p q db reopen-Raises w

pub collapse-WellFormed :
    (p q : String) (n now : ℕ) (db : Db) → WellFormed q db → WellFormed q (collapse p n now db)
unfolding collapse
collapse-WellFormed p q n now db w =
    WellFormed-raise (λ s. open_window now (raise_desired n s)) p q db
      (record {
        sound = λ s h. open_window-IsSound now _ (raise_desired-IsSound n s h);
        current = λ s. refl;
        desired = λ s. omega arith;
      })
      w

pub promote-WellFormed :
    (p q : String) (n now : ℕ) (db : Db)
    → WellFormed q db
    → WellFormed q (promote_to_full_reconcile p n now db)
unfolding promote_to_full_reconcile
promote-WellFormed p q n now db w = collapse-WellFormed p q (at_least_one n) now db w

pub scheduled-WellFormed :
    (p q : String) (db : Db) → WellFormed q db → WellFormed q (submit_scheduled_reconcile p db).1
unfolding submit_scheduled_reconcile
scheduled-WellFormed p q db w =
    elim (Option-cases ((update_sync p (advance n) (ensure_sync_state p db)).sync_state p)) [
      | inl e ↦ rw (e, submit_scheduled_reconcile) (ensure-WellFormed p q db w)
      | inr (s, e) ↦
          rw (e, submit_scheduled_reconcile)
            (WellFormed-raise_twice (advance n) mark_owing p q (ensure_sync_state p db)
              (scheduled-Raises n) (ensure-WellFormed p q db w))
    ]
  where
    n : ℕ
    n = source_generation p (ensure_sync_state p db)

sync_runs-manual :
    (p : String) (i : ManualReconcileIntent) (db : Db)
    → (submit_manual_reconcile p i db).1.sync_runs ≡ db.sync_runs
unfolding submit_manual_reconcile
sync_runs-manual p i db = ground arith

pub manual-WellFormed :
    (p q : String) (i : ManualReconcileIntent) (db : Db)
    → ((j : String) → WellFormed j db)
    → WellFormed q (submit_manual_reconcile p i db).1
unfolding submit_manual_reconcile
manual-WellFormed p q i db w =
    let n = source_generation p (ensure_sync_state p db) in
    let wp = ensure-WellFormed p p db (w p) in
    elim (Option-cases ((ensure_sync_state p db).sync_state p)) [
      | inl e ↦ ground (arith, eq_refl p, ensure-WellFormed p q db (w q))
      | inr (s, e) ↦
          let s1 = advance n (clear_gate s) in
          WellFormed-write p q (some (attach s1.desired_generation i s1)) (ensure_sync_state p db)
            (submit_manual_reconcile p i db).1
            (record {
              row = ground (arith, eq_refl p);
              row_ok = rw (sync_runs-manual p i db) (
                manual-IsSound n i s (rw e at wp).0,
                Owned-mono s.current_run_id _ _ _ (omega arith) (rw e at wp).1,
              );
              others = λ j other. ground arith;
              runs = λ j other. ground arith;
            })
            (ensure-WellFormed p q db (w q))
    ]
