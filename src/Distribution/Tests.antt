-- ===== src/Distribution/Tests.antt =====
-- DistributedExecutor with three nodes: the theorems at it.
use nexus_task.Prelude.{ℕ, ◌-◌, ◌<◌, ◌≡◌, refl, Bool, true, false, none, some, [], ◌∷◌, arith, word}
use nexus_task.Monitor.Snapshot.{no_metrics}
use nexus_task.Distribution.{
  NodeInfo, Distributed, DistributionPolicy, least_loaded, round_robin, select_node, select_by,
  least_loaded_from, round_robin_from,
}
use nexus_task.Distribution.Select.{LeastOf, Selects, select_node-LeastOf, select_node-Selects}

abbrev node : ℕ → ℕ → Bool → NodeInfo ℕ
node capacity load reachable = record {
  address = "host";
  port = 1;
  capacity = capacity;
  current_load = load;
  reachable = reachable;
  last_heartbeat = 0;
  metrics = no_metrics;
  remote_executor = none;
}

abbrev three : DistributionPolicy → Distributed ℕ
three policy = record {
  running = true;
  policy = policy;
  has_submitter = true;
  round_robin_cursor = 2;
  nodes = node 5 3 true ∷ node 5 2 true ∷ node 5 1 false ∷ [];
}

select_least : (select_node (three least_loaded)).1 ≡ some 1
unfolding select_node select_by least_loaded_from
select_least = refl

select_turn : (select_node (three round_robin)).1 ≡ some 0
unfolding select_node select_by round_robin_from
select_turn = refl

select_node-LeastOf_example :
    LeastOf 0 (three least_loaded).nodes (word - 1) none (select_node (three least_loaded)).1
select_node-LeastOf_example = select_node-LeastOf (three least_loaded) refl

select_node-Selects_example :
    Selects (three round_robin).nodes (select_node (three round_robin)).1
    × ((select_node (three round_robin)).0.round_robin_cursor < 3)
select_node-Selects_example =
    select_node-Selects (three round_robin) refl (omega arith) (omega arith)
