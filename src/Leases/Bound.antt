-- ===== src/Leases/Bound.antt =====
-- The limit of running operations on a remote, over every interleaving of the processes that share
-- the table.
use mathlib.Core.List.{Memᴰ}
use gd_sync_harness.Prelude.{
  ◌⊎◌, subst, sym, ◌∙◌, pos, negsuc, ◌&&◌, ℕ, ℤ, ◌≤◌, ◌<◌, ◌+◌, String, ◌≡◌, refl, Bool, true,
  false, some, inl, inr, List, [], str_eq, leb, arith, eq_iff, Bool-cases, Option-cases, get_or,
  if◌then◌else◌,
}
use gd_sync_harness.Db.Table.{delete_where, update_where, exists_where, count_where}
use gd_sync_harness.Leases.{
  Lease, effective_max, has_id, runs_on, is_expired, enqueue, promote, try_claim, first_waiting,
  release, poll, extend, renew,
}
use gd_sync_harness.Leases.Order.{true_not_false, first_waiting-Leads, first_waiting-mem}
use gd_sync_harness.Db.Table.Counts.{
  count-delete_le, count-split, count-and_le, count-mem, count-update_le, count-update_same,
  count-insert, exists-count,
}

different : (a b c : String) → str_eq b c ≡ false → str_eq a c ≡ true → str_eq a b ≡ false
different a b c other same = elim (Bool-cases (str_eq a b)) [
  | inr e ↦ e
  | inl e ↦
      absurd (true_not_false (sym (subst (λ x. str_eq x c ≡ true) ((eq_iff a b).0 e) same) ∙ other))
]

pub data Step : Type 0 where
  add : String → ℤ → ℕ → String → ℕ → Step
  turn : String → String → Bool → ℕ → Step
  renewal : String → ℕ → Step
  removal : String → Step

module _ (limit : String → ℤ) where
  -- Every process passes the same limit for a remote.
  unfoldable pub step : Step → List Lease → List Lease
  step (add remote priority pid id now) ls = get_or ls (enqueue remote priority pid id now ls)
  step (turn remote id is_done now) ls = (poll remote id (limit remote) is_done now ls).1
  step (renewal id now) ls = (renew id now ls).1
  step (removal id) ls = release id ls

  pub data Run : List Lease → Type 0 where
    empty : Run []
    after : {ls : List Lease} (s : Step) → Run ls → Run (step s ls)

  -- An id is the id of at most one lease, and no remote runs more than its limit.
  record Fits (ls : List Lease) : Type 0 where
    unique : (id : String) → count_where (has_id id) ls ≤ 1
    bounded : (remote : String) → count_where (runs_on remote) ls ≤ effective_max (limit remote)

  delete-Fits : (gone : Lease → Bool) (ls : List Lease) → Fits ls → Fits (delete_where gone ls)
  delete-Fits gone ls w = record {
    unique = λ id. omega (arith, count-delete_le (has_id id) gone ls, w.unique id);
    bounded = λ r. omega (arith, count-delete_le (runs_on r) gone ls, w.bounded r);
  }

  enqueue-Fits :
      (remote id : String) (priority : ℤ) (pid now : ℕ) (ls : List Lease)
      → Fits ls
      → Fits (get_or ls (enqueue remote priority pid id now ls))
  unfolding enqueue
  enqueue-Fits remote id priority pid now ls w = elim (Bool-cases (exists_where (has_id id) ls)) [
    | inl b ↦ rw b w
    | inr b ↦ rw b (record {
      unique = λ j. rw (count-insert (has_id j)) (fresh b j (Bool-cases (str_eq id j)));
      bounded = λ r. rw (count-insert (runs_on r)) (ground (arith, w.bounded r));
    })
  ]
    where
      fresh :
          exists_where (has_id id) ls ≡ false
          → (j : String) → (str_eq id j ≡ true) ⊎ (str_eq id j ≡ false)
          → count_where (has_id j) ls + (if str_eq id j then 1 else 0) ≤ 1
      fresh b j (inl s) = rw s (
          let none_there =
            subst (λ x. count_where (has_id x) ls ≡ 0) ((eq_iff id j).0 s)
              (exists-count (has_id id) ls b) in
          omega arith)
      fresh b j (inr s) = rw s (omega (arith, w.unique j))

  -- The promotion of a lease that waits on `remote`, under the limit there.
  promote-bounded :
      (remote id r : String) (now : ℕ) (live : List Lease) (f : Lease)
      → Fits live
      → Memᴰ f live
      → has_id id f ≡ true
      → str_eq f.remote_name remote ≡ true
      → count_where (runs_on remote) live < effective_max (limit remote)
      → count_where (runs_on r) (update_where (has_id id) (promote now) live)
        ≤ effective_max (limit r)
  promote-bounded remote id r now live f w m named on_remote room =
      elim (Bool-cases (str_eq remote r)) [
        | inl same ↦
            subst
              (λ x.
                count_where (runs_on x) (update_where (has_id id) (promote now) live)
                ≤ effective_max (limit x))
              ((eq_iff remote r).0 same) here
        | inr other ↦ omega (arith, step_le r, none_added other, w.bounded r)
      ]
    where
      adds : String → ℕ
      adds x = count_where (λ v. has_id id v && runs_on x (promote now v)) live

      step_le :
          (x : String)
          → count_where (runs_on x) (update_where (has_id id) (promote now) live)
            ≤ count_where (runs_on x) live + adds x
      step_le x = count-update_le (runs_on x) (has_id id) (promote now) live

      here :
          count_where (runs_on remote) (update_where (has_id id) (promote now) live)
          ≤ effective_max (limit remote)
      here = omega (
        arith,
        step_le remote,
        room,
        w.unique id,
        count-and_le (has_id id) (λ v. runs_on remote (promote now v)) live,
      )

      on : Lease → Bool
      on v = str_eq v.remote_name remote

      apart :
          str_eq remote r ≡ false → (v : Lease) → runs_on r (promote now v) ≡ true → on v ≡ false
      apart other v h = unfold promote in different v.remote_name remote r other (ground (arith, h))

      none_added : str_eq remote r ≡ false → adds r ≡ 0
      none_added other = omega (
        arith,
        w.unique id,
        count-split (has_id id) (λ v. runs_on r (promote now v)) on live (apart other),
        count-mem (λ v. has_id id v && on v) f live m (ground arith),
      )

  claim-Fits :
      (remote id : String) (now : ℕ) (ls : List Lease)
      → Fits ls
      → Fits (try_claim remote id (effective_max (limit remote)) now ls).1
  unfolding try_claim
  claim-Fits remote id now ls w =
      elim (Bool-cases (leb (effective_max (limit remote)) (count_where (runs_on remote) live))) [
        | inl b ↦ rw b w
        | inr b ↦ elim (Option-cases (first_waiting remote live)) [
          | inl e ↦ rw (b, e) w
          | inr (f, e) ↦ elim (Bool-cases (str_eq f.id id)) [
            | inl same ↦
                rw (b, e, same)
                  (record {
                    unique = λ j.
                        rw
                          (count-update_same (has_id j) (has_id id) (promote now) live
                            (λ v. unfold promote in refl))
                          (fits.unique j);
                    bounded = λ r.
                        promote-bounded remote id r now live f fits
                          (first_waiting-mem remote live f e) same (on_remote f e) (ground arith);
                  })
            | inr other ↦ rw (b, e, other) w
          ]
        ]
      ]
    where
      live : List Lease
      live = delete_where (is_expired now) ls

      fits : Fits live
      fits = delete-Fits (is_expired now) ls w

      on_remote :
          (f : Lease) → first_waiting remote live ≡ some f → str_eq f.remote_name remote ≡ true
      on_remote f e = let leads = first_waiting-Leads remote live f e in ground (arith, leads.0)

  renew-Fits : (id : String) (now : ℕ) (ls : List Lease) → Fits ls → Fits (renew id now ls).1
  unfolding renew
  renew-Fits id now ls w = record {
    unique = λ j. rw (count-update_same (has_id j) _ (extend now) ls (λ v. refl)) (w.unique j);
    bounded = λ r. rw (count-update_same (runs_on r) _ (extend now) ls (λ v. refl)) (w.bounded r);
  }

  step-Fits : (s : Step) (ls : List Lease) → Fits ls → Fits (step s ls)
  unfolding step poll
  step-Fits (add remote priority pid id now) ls w = enqueue-Fits remote id priority pid now ls w
  step-Fits (turn remote id is_done now) ls w = elim (Bool-cases is_done) [
    | inl b ↦ rw (b, poll) (unfold release in delete-Fits (has_id id) ls w)
    | inr b ↦ rw (b, poll) (claim-Fits remote id now ls w)
  ]
  step-Fits (renewal id now) ls w = renew-Fits id now ls w
  step-Fits (removal id) ls w = unfold release in delete-Fits (has_id id) ls w

  Run-Fits : {ls : List Lease} → Run ls → Fits ls
  unfolding count_where
  Run-Fits empty = record {
    unique = λ id. omega arith;
    bounded = λ r. elim (limit r) [ pos n ↦ omega arith | negsuc n ↦ omega arith ];
  }
  Run-Fits (after {ls} s r) = step-Fits s ls (Run-Fits r)

  -- In every table that the processes reach, by whatever interleaving of insertions, turns of the
  -- waiting loop, renewals and releases, the leases that run on a remote are at most the limit that
  -- every process passes for it (at least one): expired ones that still stand in the table count too.
  pub leases_bounded :
      {ls : List Lease}
      → Run ls
      → (remote : String) → count_where (runs_on remote) ls ≤ effective_max (limit remote)
  leases_bounded run remote = (Run-Fits run).bounded remote
