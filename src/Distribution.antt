-- ===== src/Distribution.antt =====
-- include/task_engine/distributed_executor.hpp: the nodes of DistributedExecutor, and where it sends
-- a submission. An executor is an element of `E`; the submissions to executors are the caller's.
mod Tests
pub mod Select
pub mod Transport
use nexus_task.Prelude.{
  ℕ, zero, suc, ◌+◌, ◌-◌, ◌%◌, max, Bool, true, false, not, ◌&&◌, Option, none, some, List, [], ◌∷◌,
  ◌++◌, if◌then◌else◌, ltb, ◌=ℕ◌, ◌==◌, length, get_elem?, keep_if, String, string_eq, word, add64,
}
use nexus_task.Monitor.Snapshot.{MetricsSnapshot, no_metrics}

pub data DistributionPolicy : Type 0 where
  local_first least_loaded round_robin broadcast : DistributionPolicy

pub record NodeInfo (E : Type 0) : Type 0 where
  pub address : String
  pub port : ℕ
  pub capacity : ℕ
  pub current_load : ℕ
  pub reachable : Bool
  pub last_heartbeat : ℕ
  pub metrics : MetricsSnapshot
  pub remote_executor : Option E

-- `has_submitter` says whether a remote submitter is set.
pub record Distributed (E : Type 0) : Type 0 where
  pub running : Bool
  pub policy : DistributionPolicy
  pub has_submitter : Bool
  pub round_robin_cursor : ℕ
  pub nodes : List (NodeInfo E)

module _ {E : Type 0} where
  abbrev pub new_node : ℕ → String → ℕ → ℕ → NodeInfo E
  new_node now address port capacity = record {
    address = address;
    port = port;
    capacity = capacity;
    current_load = 0;
    reachable = true;
    last_heartbeat = now;
    metrics = no_metrics;
    remote_executor = none;
  }

  unfoldable pub add_node : ℕ → String → ℕ → ℕ → Distributed E → Distributed E
  add_node now address port capacity d = record d {
    nodes = d.nodes ++ new_node now address port capacity ∷ [];
  }

  abbrev pub stands_at : String → ℕ → NodeInfo E → Bool
  stands_at address port n = n.address == address && (n.port =ℕ port)

  unfoldable pub remove_node : String → ℕ → Distributed E → Distributed E
  remove_node address port d = record d {
    nodes = keep_if (λ n. not (stands_at address port n)) d.nodes;
  }

  -- The loops that change the first node at an address.
  unfoldable pub at_first :
      String → ℕ → (NodeInfo E → NodeInfo E) → List (NodeInfo E) → List (NodeInfo E)
  at_first address port f [] = []
  at_first address port f (n ∷ ns) =
      let rest = at_first address port f ns in
      if stands_at address port n then f n ∷ ns else n ∷ rest

  unfoldable pub update_node_metrics :
      ℕ → String → ℕ → MetricsSnapshot → Distributed E → Distributed E
  update_node_metrics now address port metrics d = record d {
    nodes =
        at_first address port
          (λ n. record n {
            metrics = metrics;
            current_load = metrics.inflight_tasks;
            last_heartbeat = now;
          })
          d.nodes;
  }

  unfoldable pub mark_node_unreachable : String → ℕ → Distributed E → Distributed E
  mark_node_unreachable address port d = record d {
    nodes = at_first address port (λ n. record n { reachable = false }) d.nodes;
  }

  unfoldable pub find_node : String → ℕ → List (NodeInfo E) → Bool
  find_node address port [] = false
  find_node address port (n ∷ ns) =
      if stands_at address port n then true else find_node address port ns

  -- `attach_in_memory_executor`, where `pending` and `inflight` are the counts of the executor.
  unfoldable pub attach : ℕ → String → ℕ → E → ℕ → ℕ → Distributed E → Distributed E
  attach now address port executor pending inflight d =
      let capacity = max 1 (add64 pending inflight) in
      let known =
        if find_node address port d.nodes
        then d.nodes
        else d.nodes ++ new_node now address port capacity ∷ [] in
      record d {
        nodes = at_first address port (λ n. record n { remote_executor = some executor }) known;
      }

  unfoldable pub set_policy : DistributionPolicy → Distributed E → Distributed E
  set_policy policy d = record d { policy = policy }

  -- Reachable, and with room.
  abbrev pub eligible : NodeInfo E → Bool
  eligible n = n.reachable && ltb n.current_load n.capacity

  -- The loop of the policy `LeastLoaded` from index `i` on, with `min_load` and `candidate`.
  unfoldable pub least_loaded_from : ℕ → List (NodeInfo E) → ℕ → Option ℕ → Option ℕ
  least_loaded_from i [] min_load candidate = candidate
  least_loaded_from i (n ∷ ns) min_load candidate =
      let better = n.reachable && (ltb n.current_load min_load && ltb n.current_load n.capacity) in
      least_loaded_from (i + 1) ns (if better then n.current_load else min_load)
        (if better then some i else candidate)

  -- The loop of `RoundRobin`, with so many steps left, from step `i` on.
  unfoldable pub round_robin_from : ℕ → ℕ → ℕ → List (NodeInfo E) → Option ℕ
  round_robin_from zero i cursor nodes = none
  round_robin_from (suc left) i cursor nodes =
      let index = add64 cursor i % length nodes in
      let rest = round_robin_from left (i + 1) cursor nodes in
      elim (get_elem? nodes index) [
        | none ↦ rest
        | some n ↦ if eligible n then some index else rest
      ]

  -- The loop of `LocalFirst` from index `i` on.
  unfoldable pub first_reachable : ℕ → List (NodeInfo E) → Option ℕ
  first_reachable i [] = none
  first_reachable i (n ∷ ns) =
      let rest = first_reachable (i + 1) ns in if n.reachable then some i else rest

  -- The `switch` of `select_node`.
  unfoldable pub select_by : DistributionPolicy → Distributed E → Distributed E × Option ℕ
  select_by least_loaded d = (d, least_loaded_from 0 d.nodes (word - 1) none)
  select_by round_robin d =
      elim (round_robin_from (length d.nodes) 0 d.round_robin_cursor d.nodes) [
        | none ↦ (d, none)
        | some index ↦ (record d { round_robin_cursor = (index + 1) % length d.nodes }, some index)
      ]
  select_by local_first d = (d, first_reachable 0 d.nodes)
  select_by broadcast d = (d, none)

  -- `select_node`, which answers with the index of the node. No loop finds one where there is none.
  unfoldable pub select_node : Distributed E → Distributed E × Option ℕ
  select_node d = select_by d.policy d

  -- The executor of the submission: `none` for the local one.
  unfoldable pub remote_for : Bool → Option ℕ → List (NodeInfo E) → Option ℕ
  remote_for has_submitter none nodes = none
  remote_for has_submitter (some index) nodes = elim (get_elem? nodes index) [
    | none ↦ none
    | some n ↦ if has_submitter && n.reachable then some index else none
  ]

  -- The remote nodes that `broadcast` submits to, after the local executor.
  unfoldable pub broadcast_to : ℕ → List (NodeInfo E) → List ℕ
  broadcast_to i [] = []
  broadcast_to i (n ∷ ns) =
      let rest = broadcast_to (i + 1) ns in if n.reachable then i ∷ rest else rest

  -- `submit`: the executors that get the task, in order.
  unfoldable pub submit : Distributed E → Distributed E × List (Option ℕ)
  submit d = elim d.policy [
    | broadcast ↦ (d, none ∷ (if d.has_submitter then remotes (broadcast_to 0 d.nodes) else []))
    | local_first ↦ single (select_node d)
    | least_loaded ↦ single (select_node d)
    | round_robin ↦ single (select_node d)
  ]
    where
      remotes : List ℕ → List (Option ℕ)
      remotes [] = []
      remotes (i ∷ is) = some i ∷ remotes is

      single : Distributed E × Option ℕ → Distributed E × List (Option ℕ)
      single (d', index) = (d', remote_for d.has_submitter index d.nodes ∷ [])
