-- ===== src/Group/Tests.antt =====
-- TaskGroup on an executor with two tasks: the theorems at it.
use nexus_task.Prelude.{ℕ, true, none, [], ◌∷◌, ◌=ℕ◌, if◌then◌else◌}
use nexus_task.Task.{TaskOptions, normal, create, completed}
use nexus_task.Monitor.{initial}
use nexus_task.Graph.{Heap}
use nexus_task.Executor.{Executor, plain}
use nexus_task.Group.{TaskGroup}

abbrev options : TaskOptions
options = record {
  priority = normal;
  max_retries = 0;
  timeout = 0;
  deadline = none;
  category = "";
  track_metrics = true;
}

-- Task 1 has ended.
abbrev heap : Heap
heap p =
    if p =ℕ 1
    then record (create p "task" options 0) { status = completed }
    else create p "task" options 0

abbrev executor : Executor ℕ ℕ
executor = record {
  pool = 0;
  graph = record { heap = heap; tasks = (1, 1) ∷ (2, 2) ∷ [] };
  metrics = initial;
  scheduler_running = true;
  next_task_id = 3;
  task_promises = [];
  promise_of = λ _. none;
  callback_of = λ _. plain none;
  allocated = 3;
}

abbrev group : TaskGroup
group = record { task_ids = 1 ∷ 2 ∷ 7 ∷ [] }
