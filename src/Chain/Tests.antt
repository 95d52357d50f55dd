-- ===== src/Chain/Tests.antt =====
-- A chain of two steps on a new executor over two workers: the theorem at it.
use nexus_task.Prelude.{ℕ, ◌+◌, ◌≡◌, ◌≢◌, some, [], ◌∷◌, arith}
use nexus_task.Task.{create, returns}
use nexus_task.Graph.{Heap}
use nexus_task.Pool.Priority.{no_tasks}
use nexus_task.Pool.Create.{empty_pool, empty_pool-PoolHolds}
use nexus_task.Pool.Work.{Stocked, thread_pool}
use nexus_task.Executor.{Executor, new_executor}
use nexus_task.Executor.Sound.{new_executor-IsSound}
use nexus_task.Chain.{TaskChain, default_options, execute}
use nexus_task.Chain.Execution.{Chained, execute-Chained}

abbrev new_heap : Heap
new_heap p = create p "task" default_options 0

abbrev stock : Stocked
stock = record {
  pool = empty_pool 2;
  shared = no_tasks;
  owned = no_tasks ∷ no_tasks ∷ [];
  holds = empty_pool-PoolHolds 2 (omega arith);
}

abbrev fresh : Executor Stocked ℕ
fresh = new_executor stock new_heap

abbrev doubling : TaskChain ℕ
doubling = record { steps = (λ n. returns (n + n), "") ∷ (λ n. returns (n + 1), "last") ∷ [] }

execute-Chained_example :
    (doubling.steps ≡ [] → execute thread_pool (λ i. i) doubling fresh ≡ some (fresh, returns 0))
    × (doubling.steps ≢ [] → Chained fresh 2 (execute thread_pool (λ i. i) doubling fresh))
unfolding new_executor
execute-Chained_example =
    execute-Chained thread_pool (λ i. i) fresh doubling (new_executor-IsSound stock new_heap)
      (omega arith)
