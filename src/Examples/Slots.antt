-- ===== src/Examples/Slots.antt =====
-- Leases, queues of jobs, subscribers and rates.
use gd_sync_harness.Prelude.{◌≤◌, ℕ, ℤ, String, List, pos, false, none, [], All}
use gd_sync_harness.Db.Table.{count_where}
use gd_sync_harness.Leases.{Lease, runs_on}
use gd_sync_harness.Leases.Bound.{add, turn, Run, empty, after, step, leases_bounded}
use gd_sync_harness.Scheduler.{Job, Scheduler, new_scheduler, submit}
use gd_sync_harness.Scheduler.Order.{Reached, made, submitted}
use gd_sync_harness.Live.Hub.{
  Subscriber, publish, finish, held, HandedOff, Reached-HandedOff, begin_subscribe,
}
use gd_sync_harness.Live.Hub
use gd_sync_harness.Live.Throughput.{ThroughputEstimator}

abbrev two : String → ℤ
two remote = pos 2

-- A process enqueues its operation and waits one turn.
abbrev one_lease : List Lease
one_lease = step two (turn "drive" "l1" false 6) (step two (add "drive" (pos 1) 42 "l1" 5) [])

one_run : Run two one_lease
one_run = after (turn "drive" "l1" false 6) (after (add "drive" (pos 1) 42 "l1" 5) empty)

leases_bounded_example : count_where (runs_on "drive") one_lease ≤ 2
leases_bounded_example = leases_bounded two one_run "drive"

abbrev job : ℕ → ℤ → Job
job ticket priority = record { remote = "drive"; priority = priority; ticket = ticket }

abbrev two_jobs : Scheduler
two_jobs = submit (job 2 (pos 5)) (submit (job 1 (pos 1)) (new_scheduler (pos 2)))

two_jobs_Reached : Reached two_jobs
two_jobs_Reached = submitted (job 2 (pos 5)) (submitted (job 1 (pos 1)) (made (pos 2)))

abbrev waiting_sub : Subscriber ℕ
waiting_sub = record { key = 1; ch = none; ready = false; pending = none }

abbrev hub_steps : List (Subscriber ℕ)
hub_steps = Hub.step (Hub.publishes 7) (Hub.step (Hub.begins 1) [])

Reached-HandedOff_example : All HandedOff hub_steps
Reached-HandedOff_example =
    Reached-HandedOff (Hub.then_ (Hub.publishes 7) (Hub.then_ (Hub.begins 1) Hub.empty))

abbrev unused : ThroughputEstimator
unused = record { last_bytes = 0; last_at = 0; has_sample = false }
