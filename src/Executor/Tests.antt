-- ===== src/Executor/Tests.antt =====
-- TaskExecutor over a pool of two workers: the theorems at it.
use nexus_task.Prelude.{ℕ, refl, true, none, some, [], ◌∷◌, arith, nat_eq}
use nexus_task.Task.{TaskOptions, normal, create, returns, Readings, is_ready}
use nexus_task.Monitor.{initial}
use nexus_task.Graph.{Heap, get_ready_tasks}
use nexus_task.Pool.Priority.{no_tasks}
use nexus_task.Pool.Create.{empty_pool, empty_pool-PoolHolds}
use nexus_task.Pool.Work.{Stocked, thread_pool}
use nexus_task.Executor.{
  Executor, plain, fulfilling, new_executor, enqueue_each, cancel, start, tick,
}
use nexus_task.Executor.Sound.{IsSound, new_executor-IsSound}
use nexus_task.Executor.Steps.{Steps, here, after, starts, cancels, ticks}
use nexus_task.Executor.Reach.{Steps-IsSound}
use nexus_task.Executor.Live.{StepQueued, tick-Queued}
use nexus_task.Executor.Once.{Once, StepOnce, tick-Once}

abbrev once_only : TaskOptions
once_only = record {
  priority = normal;
  max_retries = 0;
  timeout = 0;
  deadline = none;
  category = "";
  track_metrics = true;
}

abbrev new_heap : Heap
unfolding create
new_heap p = create p "task" once_only 0

abbrev stock : Stocked
stock = record {
  pool = empty_pool 2;
  shared = no_tasks;
  owned = no_tasks ∷ no_tasks ∷ [];
  holds = empty_pool-PoolHolds 2 (omega arith);
}

abbrev idle : Executor Stocked ℕ
idle = record {
  pool = stock;
  graph = record { heap = new_heap; tasks = [] };
  metrics = initial;
  scheduler_running = true;
  next_task_id = 1;
  task_promises = [];
  promise_of = λ _. some (returns 3);
  callback_of = λ _. plain none;
  allocated = 0;
}

-- Task 1 is asynchronous, with the promise 9.
abbrev waiting : Executor Stocked ℕ
waiting = record idle {
  graph = record { heap = new_heap; tasks = (1, 1) ∷ [] };
  next_task_id = 2;
  allocated = 2;
  task_promises = (1, 9) ∷ [];
  promise_of = λ _. none;
  callback_of = λ _. fulfilling 9 none;
}

abbrev at_once : Readings
at_once = record { started = 5; checked = 5; finished = 6; caught = 6 }

abbrev fresh : Executor Stocked ℕ
fresh = new_executor stock new_heap

idle-Once : Once thread_pool idle
unfolding thread_pool
idle-Once p = omega arith

tick-Once_example : StepOnce thread_pool (tick thread_pool idle)
tick-Once_example = tick-Once thread_pool idle idle-Once

-- The scheduler starts, finds nothing ready, and a client cancels an unknown task.
abbrev later : Executor Stocked ℕ
later = (cancel 1 (start fresh)).0

history : Steps thread_pool fresh later
unfolding start tick enqueue_each get_ready_tasks new_executor
history = after starts (after (ticks true refl) (after (cancels 1) here))

Steps-IsSound_example : IsSound later
unfolding new_executor history
Steps-IsSound_example =
    Steps-IsSound thread_pool fresh later history (new_executor-IsSound stock new_heap)
      (omega arith)

-- Task 1 is ready in the graph.
abbrev entered : Executor Stocked ℕ
entered = record idle {
  graph = record { heap = new_heap; tasks = (1, 1) ∷ [] };
  next_task_id = 2;
  allocated = 2;
}

tick-Queued_example : StepQueued thread_pool 1 (tick thread_pool entered)
unfolding new_heap is_ready
tick-Queued_example = tick-Queued thread_pool 1 1 entered refl refl refl
