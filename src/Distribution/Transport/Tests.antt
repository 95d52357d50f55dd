-- ===== src/Distribution/Transport/Tests.antt =====
-- A fleet of two nodes that share an executor: the theorem at it.
use nexus_task.Prelude.{ℕ, true, none, some, [], ◌∷◌, arith}
use nexus_task.Task.{TaskOptions, normal, create}
use nexus_task.Graph.{Heap}
use nexus_task.Monitor.Snapshot.{no_metrics}
use nexus_task.Pool.Priority.{no_tasks}
use nexus_task.Pool.Create.{empty_pool, empty_pool-PoolHolds}
use nexus_task.Pool.Work.{Stocked}
use nexus_task.Executor.{Executor, new_executor}
use nexus_task.Distribution.{NodeInfo, broadcast}
use nexus_task.Distribution.Transport.{SubmissionOptions, Fleet}

abbrev options : TaskOptions
options = record {
  priority = normal;
  max_retries = 0;
  timeout = 0;
  deadline = none;
  category = "";
  track_metrics = true;
}

abbrev submission : SubmissionOptions ℕ
submission = record { dependencies = 1 ∷ []; task_options = options; callback = none }

abbrev new_heap : Heap
unfolding create
new_heap p = create p "task" options 0

abbrev one_worker : Stocked
one_worker = record {
  pool = empty_pool 1;
  shared = no_tasks;
  owned = no_tasks ∷ [];
  holds = empty_pool-PoolHolds 1 (omega arith);
}

abbrev fresh : Executor Stocked ℕ
fresh = new_executor one_worker new_heap

abbrev node : NodeInfo ℕ
node = record {
  address = "host";
  port = 1;
  capacity = 4;
  current_load = 0;
  reachable = true;
  last_heartbeat = 0;
  metrics = no_metrics;
  remote_executor = some 5;
}

abbrev fleet : Fleet Stocked ℕ
fleet = record {
  cluster = record {
    running = true;
    policy = broadcast;
    has_submitter = true;
    round_robin_cursor = 0;
    nodes = node ∷ node ∷ [];
  };
  local_executor = fresh;
  executor_at = λ _. fresh;
}
