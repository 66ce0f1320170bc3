-- ===== src/Scheduler.antt =====
-- internal/sched/scheduler.go: the jobs that wait for a slot on a remote. What a job runs, the locks
-- and the channel of its result are not modelled.
pub mod Order
use gd_sync_harness.Prelude.{
  ℕ, ℤ, pos, negsuc, ◌<?◌, String, Bool, true, false, Option, none, some, List, [], ◌∷◌, str_eq,
  get_or, if◌then◌else◌, ◌==◌, is_pos,
}
use gd_sync_harness.Db.Table.{Table}

-- Job, with a ticket for what it runs
pub record Job : Type 0 where
  pub remote : String
  pub priority : ℤ
  pub ticket : ℕ

-- Scheduler, with the number of workers that each remote has
pub record Scheduler : Type 0 where
  pub max_concurrent : ℤ
  pub queues : Table (List Job)
  pub workers : Table ℤ

-- New
unfoldable pub new_scheduler : ℤ → Scheduler
new_scheduler max_concurrent = record {
  max_concurrent = if is_pos max_concurrent then max_concurrent else pos 2;
  queues = λ r. none;
  workers = λ r. none;
}

-- The insertion of Submit: before the first job of a lower priority, or at the end.
unfoldable pub insert_job : Job → List Job → List Job
insert_job job [] = job ∷ []
insert_job job (j ∷ js) =
    let rest = insert_job job js in if j.priority <? job.priority then job ∷ j ∷ js else j ∷ rest

-- Submit: a remote that has no queue gets one, with its workers.
unfoldable pub submit : Job → Scheduler → Scheduler
unfolding insert_job
submit job s = record s {
  queues = λ r.
      if str_eq job.remote r then some (insert_job job (get_or [] (s.queues r))) else s.queues r;
  workers = λ r.
      if str_eq job.remote r then some (get_or s.max_concurrent (s.workers r)) else s.workers r;
}

-- One turn of run, for a worker of the remote: the job that it takes; none while it waits
unfoldable pub take_job : String → Scheduler → Option Job × Scheduler
take_job remote s = elim (get_or [] (s.queues remote)) [
  | [] ↦ (none, s)
  | ◌∷◌ j js ↦ (some j, record s { queues = λ r. if str_eq remote r then some js else s.queues r })
]
