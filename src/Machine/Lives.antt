-- ===== src/Machine/Lives.antt =====
-- The transactions on profiles and on pending events keep every profile well formed.
use gd_sync_harness.Prelude.{
  ℕ, ℤ, String, ◌≡◌, refl, Bool, false, inl, inr, none, some, List, [], ◌∷◌, eq_refl, arith,
  Bool-cases, Option-cases, not, ◌||◌,
}
use gd_sync_harness.Db.Schema.{Db, PendingEvent, EventKind}
use gd_sync_harness.Sync.{new_row, update_runtime}
use gd_sync_harness.Sync.Invariant.{new_row-IsSound}
use gd_sync_harness.Sync.Runs.{live_runs-delete_self, live_runs-delete_ne}
use gd_sync_harness.Events.{
  record_event, fast_event, bump, clear_pending, clear_pending_events, is_safe_fast_kind,
  needs_bootstrap,
}
use gd_sync_harness.Lifecycle.{
  create_profile, set_profile_enabled, request_profile_deletion, finalize_deletion, restore_profile,
  forget_profile, delete_profile, has_rows, created,
}
use gd_sync_harness.Machine.Owned.{WellFormed, WellFormed-write, WellFormed-same}
use gd_sync_harness.Machine.Keeps.{collapse-WellFormed}

pub event-WellFormed :
    (p q path : String) (kind : EventKind) (is_full : Bool) (policy_hash : String) (now : ℕ)
    (db : Db)
    → WellFormed q db
    → WellFormed q (record_event p path kind is_full policy_hash now db).1
unfolding record_event
event-WellFormed p q path kind is_full policy_hash now db w = elim (Option-cases (db.runtime p)) [
  | inl e ↦ rw (e, record_event) w
  | inr (r, e) ↦ elim (Option-cases (db.sync_state p)) [
    | inl e' ↦ rw (e, e', record_event) w
    | inr (s, e') ↦
        elim (Bool-cases (is_full || not (is_safe_fast_kind kind) || needs_bootstrap s)) [
          | inl b ↦
              rw (e, e', b, record_event)
                (collapse-WellFormed p q _ now (update_runtime p bump db) w)
          | inr b ↦ rw (e, e', b, record_event, fast_event) w
        ]
  ]
]

pub clear_versions-WellFormed :
    (p q : String) (es : List PendingEvent) (db : Db)
    → WellFormed q db
    → WellFormed q (clear_pending_events p es db)
unfolding clear_pending_events
clear_versions-WellFormed p q [] db w = w
clear_versions-WellFormed p q (e ∷ es) db w = clear_versions-WellFormed p q es _ w

pub clear-WellFormed :
    (p q : String) (db : Db) → WellFormed q db → WellFormed q (clear_pending p db)
unfolding clear_pending
clear-WellFormed p q db w = w

pub enable-WellFormed :
    (p q : String) (b : Bool) (db : Db)
    → WellFormed q db
    → WellFormed q (set_profile_enabled p b db).1
unfolding set_profile_enabled
enable-WellFormed p q b db w =
    WellFormed-same q db (set_profile_enabled p b db).1 (ground arith) (ground arith) w

pub request_deletion-WellFormed :
    (p q : String) (now : ℕ) (db : Db)
    → WellFormed q db
    → WellFormed q (request_profile_deletion p now db).1
unfolding request_profile_deletion
request_deletion-WellFormed p q now db w =
    WellFormed-same q db (request_profile_deletion p now db).1 (ground arith) (ground arith) w

pub finalize-WellFormed :
    (p q : String) (now : ℕ) (db : Db)
    → WellFormed q db
    → WellFormed q (finalize_deletion p now db).1
unfolding finalize_deletion
finalize-WellFormed p q now db w =
    WellFormed-same q db (finalize_deletion p now db).1 (ground arith) (ground arith) w

pub restore-WellFormed :
    (p q : String) (db : Db) → WellFormed q db → WellFormed q (restore_profile p db)
unfolding restore_profile
restore-WellFormed p q db w = w

no_row : (p : String) (db : Db) → has_rows p db ≡ false → db.sync_state p ≡ none
unfolding has_rows
no_row p db h = ground arith

-- A profile that is created had no row, and so no attempt.
pub create-WellFormed :
    (p q : String) (max_delete : ℤ) (enabled : Bool) (policy_hash : String) (now : ℕ) (db : Db)
    → ((j : String) → WellFormed j db)
    → WellFormed q (create_profile p max_delete enabled policy_hash now db).1
unfolding create_profile
create-WellFormed p q max_delete enabled policy_hash now db w =
    elim (Option-cases (db.profiles p)) [
      | inr (pr, e) ↦ rw (e, create_profile) (w q)
      | inl e ↦ elim (Bool-cases (has_rows p db)) [
        | inl b ↦ rw (e, b, create_profile) (w q)
        | inr b ↦
            rw (e, b, create_profile)
              (WellFormed-write p q (some (new_row 1)) db
                (created p max_delete enabled policy_hash now db)
                (record {
                  row = ground (arith, eq_refl p);
                  row_ok = (new_row-IsSound 1, rw (no_row p db b) at (w p));
                  others = λ j other. ground arith;
                  runs = λ j other. refl;
                })
                (w q))
      ]
    ]

pub forget-WellFormed :
    (p q : String) (db : Db)
    → ((j : String) → WellFormed j db)
    → WellFormed q (forget_profile p db).1
unfolding forget_profile
forget-WellFormed p q db w = elim (Option-cases (db.profiles p)) [
  | inl e ↦ rw (e, forget_profile) (w q)
  | inr (pr, e) ↦ elim (Bool-cases pr.tombstoned) [
    | inr b ↦ rw (e, b, forget_profile) (w q)
    | inl b ↦
        rw (e, b, forget_profile)
          (WellFormed-write p q none db (delete_profile p db)
            (record {
              row = ground (arith, eq_refl p);
              row_ok = live_runs-delete_self p db.sync_runs;
              others = λ j other. ground arith;
              runs = λ j other. live_runs-delete_ne p j db.sync_runs other;
            })
            (w q))
  ]
]
