-- ===== src/Sync/Runs.antt =====
-- The attempts of a profile that are still marked running, in the order of sync_runs, and how the
-- statements of the claim and of the commits change them.
use gd_sync_harness.Prelude.{
  String, ◌≡◌, refl, Bool, false, ◌&&◌, List, [], ◌∷◌, ◌++◌, arith, str_eq, eq_iff,
}
use gd_sync_harness.Db.Table.{update_where, delete_where, select_where}
use gd_sync_harness.Db.Schema.{SyncRun}
use gd_sync_harness.Sync.Commit.{is_running, is_live_run}

abbrev pub is_live : String → SyncRun → Bool
is_live p r = str_eq r.profile_id p && is_running r.status

unfoldable pub live_runs : String → List SyncRun → List SyncRun
live_runs p = select_where (is_live p)

pub live_runs-append :
    (p : String) (rs ts : List SyncRun) → live_runs p (rs ++ ts) ≡ live_runs p rs ++ live_runs p ts
unfolding live_runs select_where
live_runs-append p [] ts = refl
live_runs-append p (r ∷ rs) ts = ground (arith, live_runs-append p rs ts)

-- A statement that ends runs of one profile: `f` takes a run out of `running` and keeps its key.
pub record Ends (f : SyncRun → SyncRun) : Type 0 where
  pub stops : (r : SyncRun) → is_running (f r).status ≡ false
  pub keeps_profile : (r : SyncRun) → (f r).profile_id ≡ r.profile_id

module _ (p : String) (f : SyncRun → SyncRun) (ends : Ends f) where
  -- Ending one attempt takes exactly the runs of its id away.
  pub live_runs-end :
      (id : String) (rs : List SyncRun)
      → live_runs p (update_where (is_live_run p id) f rs)
        ≡ delete_where (λ r. str_eq r.id id) (live_runs p rs)
  unfolding live_runs select_where update_where delete_where
  live_runs-end id [] = refl
  live_runs-end id (r ∷ rs) =
      ground (arith, live_runs-end id rs, ends.stops r, ends.keeps_profile r)

  pub live_runs-end_all : (rs : List SyncRun) → live_runs p (update_where (is_live p) f rs) ≡ []
  unfolding live_runs select_where update_where
  live_runs-end_all [] = refl
  live_runs-end_all (r ∷ rs) =
      ground (arith, live_runs-end_all rs, ends.stops r, ends.keeps_profile r)

  -- Another profile's attempts are left alone.
  module _ (q : String) (other : str_eq p q ≡ false) where
    pub live_runs-end_ne :
        (id : String) (rs : List SyncRun)
        → live_runs q (update_where (is_live_run p id) f rs) ≡ live_runs q rs
    unfolding live_runs select_where update_where
    live_runs-end_ne id [] = refl
    live_runs-end_ne id (r ∷ rs) = ground (
      arith,
      live_runs-end_ne id rs,
      ends.keeps_profile r,
      eq_iff p q,
      eq_iff r.profile_id p,
      eq_iff r.profile_id q,
    )

    pub live_runs-end_all_ne :
        (rs : List SyncRun) → live_runs q (update_where (is_live p) f rs) ≡ live_runs q rs
    unfolding live_runs select_where update_where
    live_runs-end_all_ne [] = refl
    live_runs-end_all_ne (r ∷ rs) = ground (
      arith,
      live_runs-end_all_ne rs,
      ends.keeps_profile r,
      eq_iff p q,
      eq_iff r.profile_id p,
      eq_iff r.profile_id q,
    )

-- Forgetting a profile.
pub live_runs-delete_self :
    (p : String) (rs : List SyncRun)
    → live_runs p (delete_where (λ r. str_eq r.profile_id p) rs) ≡ []
unfolding live_runs select_where delete_where
live_runs-delete_self p [] = refl
live_runs-delete_self p (r ∷ rs) = ground (arith, live_runs-delete_self p rs)

pub live_runs-delete_ne :
    (p q : String) (rs : List SyncRun)
    → str_eq p q ≡ false
    → live_runs q (delete_where (λ r. str_eq r.profile_id p) rs) ≡ live_runs q rs
unfolding live_runs select_where delete_where
live_runs-delete_ne p q [] h = refl
live_runs-delete_ne p q (r ∷ rs) h =
    ground (
      arith,
      live_runs-delete_ne p q rs h,
      eq_iff p q,
      eq_iff r.profile_id p,
      eq_iff r.profile_id q,
    )
