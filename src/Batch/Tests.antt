-- ===== src/Batch/Tests.antt =====
-- A batch of a task and one that depends on it: the theorem at it, and what `cancel_all` leaves if
-- the dependent stands first.
use nexus_task.Prelude.{ℕ, ◌≡◌, refl, true, none, [], ◌∷◌, ◌=ℕ◌, if◌then◌else◌, pos}
use nexus_task.Task
use nexus_task.Task.{TaskOptions, normal, create, ready, cancelled, notify_dependency_completed}
use nexus_task.Monitor.{initial}
use nexus_task.Graph.{Heap, get_task, notify_task_completed, notify_each}
use nexus_task.Executor
use nexus_task.Executor.{Executor, plain, settle_registered, settle, finish, get_task_status}
use nexus_task.Batch.{TaskBatch, cancel_each, cancel_all, get_statuses}

abbrev options : TaskOptions
options = record {
  priority = normal;
  max_retries = 0;
  timeout = 0;
  deadline = none;
  category = "";
  track_metrics = true;
}

-- Task 2 depends on task 1.
abbrev heap : Heap
heap p =
    if p =ℕ 1
    then record (create 1 "first" options 0) { dependents = 2 ∷ [] }
    else record (create 2 "second" options 0) { dependencies = 1 ∷ []; dependencies_count = pos 1 }

abbrev executor : Executor ℕ ℕ
executor = record {
  pool = 0;
  graph = record { heap = heap; tasks = (1, 1) ∷ (2, 2) ∷ [] };
  metrics = initial;
  scheduler_running = true;
  next_task_id = 3;
  task_promises = [];
  promise_of = λ _. none;
  callback_of = λ _. plain none;
  allocated = 3;
}

abbrev dependent_first : TaskBatch
dependent_first = record { task_ids = 2 ∷ 1 ∷ [] }

-- The cancelled dependent counts as ready again.
revived :
    (get_statuses dependent_first (cancel_all dependent_first executor).0) ≡ ready ∷ cancelled ∷ []
unfolding cancel_all cancel_each Executor.cancel get_task Task.cancel settle_registered settle
    finish notify_task_completed notify_each notify_dependency_completed create get_statuses
    get_task_status Task.clear_enqueued_flag
revived = refl
