-- ===== src/Pool/Tests.antt =====
-- ThreadPool with two workers: the theorems at it.
use nexus_task.Prelude.{◌+◌, ◌≡◌, ltb, [], ◌∷◌, arith}
use nexus_task.Pool.{Pool, has_pending_work, pending_tasks}
use nexus_task.Pool.Priority.{no_tasks}
use nexus_task.Pool.Create.{empty_pool, empty_pool-PoolHolds}
use nexus_task.Pool.Submit.{PoolHolds}
use nexus_task.Pool.Pending.{tasks_in, tasks_in_all, pending-PoolHolds}

abbrev two_workers : Pool
two_workers = empty_pool 2

two_workers-PoolHolds : PoolHolds two_workers no_tasks (no_tasks ∷ no_tasks ∷ [])
two_workers-PoolHolds = empty_pool-PoolHolds 2 (omega arith)

pending-PoolHolds_example :
    (has_pending_work two_workers
      ≡ ltb 0 (tasks_in no_tasks + tasks_in_all (no_tasks ∷ no_tasks ∷ [])))
    × (pending_tasks two_workers ≡ tasks_in no_tasks + tasks_in_all (no_tasks ∷ no_tasks ∷ []))
pending-PoolHolds_example =
    pending-PoolHolds two_workers no_tasks (no_tasks ∷ no_tasks ∷ []) two_workers-PoolHolds
      (omega arith)
