-- ===== src/Scheduler/Order.antt =====
-- The order in which the jobs of a remote are taken.
use gd_sync_harness.Prelude.{
  ℤ, ◌<?◌, lt_neg_trans, lt_irrefl, String, ◌≡◌, refl, ◌⊎◌, subst, List-cases, Bool, true, false,
  none, some, inl, inr, List, [], ◌∷◌, ◌++◌, All, All-imp, str_eq, get_or, arith, eq_refl,
  Bool-cases, if◌then◌else◌, not, ◌&&◌, cons_cong,
}
use mathlib.Core.List.{append-nil}
use gd_sync_harness.Db.Table.{select_where}
use gd_sync_harness.Db.Table.Laws.{select_where-nil}
use gd_sync_harness.Scheduler.{Job, Scheduler, insert_job, submit, take_job, new_scheduler}

-- No job has a higher priority than one before it.
abbrev pub Sorted : List Job → Type 0
Sorted [] = Unit
Sorted (j ∷ js) = All (λ k. (j.priority <? k.priority) ≡ false) js × Sorted js

abbrev pub same_priority : ℤ → Job → Bool
same_priority a j = not (a <? j.priority) && not (j.priority <? a)

All-insert :
    (P : Job → Type 0) (job : Job) (js : List Job) → P job → All P js → All P (insert_job job js)
unfolding insert_job
All-insert P job [] h hs = (h, tt)
All-insert P job (j ∷ js) h (hj, hs) = elim (Bool-cases (j.priority <? job.priority)) [
  | inl b ↦ rw b (h, (hj, hs))
  | inr b ↦ rw b (hj, All-insert P job js h hs)
]

lt_asym : (a b : ℤ) → (a <? b) ≡ true → (b <? a) ≡ false
lt_asym (ℤ.pos m) (ℤ.pos n) h = ground arith
lt_asym (ℤ.pos m) (ℤ.negsuc n) h = ground arith
lt_asym (ℤ.negsuc m) (ℤ.pos n) h = refl
lt_asym (ℤ.negsuc m) (ℤ.negsuc n) h = ground arith

insert-Sorted : (job : Job) (js : List Job) → Sorted js → Sorted (insert_job job js)
unfolding insert_job
insert-Sorted job [] w = (tt, tt)
insert-Sorted job (j ∷ js) (below, w) = elim (Bool-cases (j.priority <? job.priority)) [
  | inl b ↦
      let down = lt_asym j.priority job.priority b in
      rw b (
        (
          down,
          All-imp _ _ js (λ k h. lt_neg_trans job.priority j.priority k.priority down h) below,
        ),
        (below, w),
      )
  | inr b ↦ rw b (All-insert _ job js b below, insert-Sorted job js w)
]

-- What is not above a job of a lower priority than `b` has not the priority of `b`.
lower :
    (a b c d : ℤ)
    → (not (a <? b) && not (b <? a)) ≡ true
    → (c <? b) ≡ true
    → (c <? d) ≡ false
    → (not (a <? d) && not (d <? a)) ≡ false
lower a b c d same below above =
    ground (arith, same, below, above, lt_neg_trans c d b above, lt_neg_trans d a b)

-- Jobs of one priority, after an insertion: the new one is the last of its own.
insert-stable :
    (a : ℤ) (job : Job) (js : List Job)
    → Sorted js
    → select_where (same_priority a) (insert_job job js)
      ≡ select_where (same_priority a) js ++ (if same_priority a job then job ∷ [] else [])
unfolding insert_job select_where
insert-stable a job [] w = refl
insert-stable a job (j ∷ js) (below, w) = elim (Bool-cases (j.priority <? job.priority)) [
  | inr b ↦ rw b (kept (insert-stable a job js w) (Bool-cases (same_priority a j)))
  | inl b ↦ elim (Bool-cases (same_priority a job)) [
    | inl own ↦
        rw
          (
            b,
            own,
            select_where-nil (same_priority a) (j ∷ js) (
              lower a job.priority j.priority j.priority own b (lt_irrefl j.priority),
              All-imp _ _ js (λ k h. lower a job.priority j.priority k.priority own b h) below,
            ),
          )
          refl
    | inr foreign ↦ rw (b, foreign, append-nil) refl
  ]
]
  where
    kept :
        select_where (same_priority a) (insert_job job js)
          ≡ select_where (same_priority a) js ++ (if same_priority a job then job ∷ [] else [])
        → (same_priority a j ≡ true) ⊎ (same_priority a j ≡ false)
        → select_where (same_priority a) (j ∷ insert_job job js)
          ≡ select_where (same_priority a) (j ∷ js)
            ++ (if same_priority a job then job ∷ [] else [])
    kept rest (inl same) = rw same (cons_cong refl rest)
    kept rest (inr other) = rw other rest

pub data Reached : Scheduler → Type 0 where
  made : (n : ℤ) → Reached (new_scheduler n)
  submitted : {s : Scheduler} (job : Job) → Reached s → Reached (submit job s)
  taken : {s : Scheduler} (r : String) → Reached s → Reached (take_job r s).1

abbrev pub queue_of : String → Scheduler → List Job
queue_of r s = get_or [] (s.queues r)

take-Sorted :
    (q : String) (s : Scheduler) (r : String)
    → ((x : String) → Sorted (queue_of x s))
    → Sorted (queue_of r (take_job q s).1)
unfolding take_job
take-Sorted q s r w = elim (List-cases (queue_of q s)) [
  | inl e ↦ rw (e, take_job) (w r)
  | inr (j, js, e) ↦ elim (Bool-cases (str_eq q r)) [
    | inl b ↦ rw (e, take_job, b) (rw e at (w q)).1
    | inr b ↦ rw (e, take_job, b) (w r)
  ]
]

Reached-Sorted : {s : Scheduler} → Reached s → (r : String) → Sorted (queue_of r s)
unfolding new_scheduler submit
Reached-Sorted (made n) r = tt
Reached-Sorted (submitted {s} job h) r = elim (Bool-cases (str_eq job.remote r)) [
  | inl b ↦ rw b (insert-Sorted job (queue_of r s) (Reached-Sorted h r))
  | inr b ↦ rw b (Reached-Sorted h r)
]
Reached-Sorted (taken {s} q h) r = take-Sorted q s r (Reached-Sorted h)

-- In every scheduler that submissions and workers reach, in any order, the job that a worker takes
-- has the highest priority of its remote: no job that stays in the queue has a higher one. A worker
-- gets no job only where the queue is empty.
take_highest :
    {s : Scheduler}
    → Reached s
    → (r : String)
    → ((j : Job)
        → (take_job r s).0 ≡ some j
        → All (λ k. (j.priority <? k.priority) ≡ false) (queue_of r (take_job r s).1))
      × ((take_job r s).0 ≡ none → queue_of r s ≡ [])
unfolding take_job
take_highest {s} h r = elim (List-cases (queue_of r s)) [
  | inl e ↦ rw (e, take_job) (λ j got. ground (arith, got), λ idle. refl)
  | inr (j, js, e) ↦
      let best = (rw e at (Reached-Sorted h r)).0 in
      rw (e, take_job, eq_refl r)
        (
          λ k got.
              subst (λ x. All (λ y. (x.priority <? y.priority) ≡ false) js) (some_injective got)
                best,
          λ idle. ground (arith, idle),
        )
]
  where
    some_injective : {a b : Job} → some a ≡ some b → a ≡ b
    some_injective e = ground arith

-- Jobs of one priority are first in, first out: in every reached scheduler a submitted job is the
-- last of the jobs of its own priority on its remote, and the order of those of every priority is
-- kept.
submit_fifo :
    {s : Scheduler}
    → Reached s
    → (job : Job) (a : ℤ)
    → select_where (same_priority a) (queue_of job.remote (submit job s))
      ≡ select_where (same_priority a) (queue_of job.remote s)
        ++ (if same_priority a job then job ∷ [] else [])
unfolding submit
submit_fifo {s} h job a =
    rw (eq_refl job.remote)
      (insert-stable a job (queue_of job.remote s) (Reached-Sorted h job.remote))
