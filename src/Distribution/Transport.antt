-- ===== src/Distribution/Transport.antt =====
-- include/task_engine/distributed_executor.hpp: the submissions of DistributedExecutor with the
-- in-memory transport. An executor that nodes refer to is found by its address; the local one is
-- owned.
mod Tests
pub mod Spare
use nexus_task.Prelude.{
  ℕ, Bool, true, false, ◌&&◌, Option, none, some, List, [], ◌∷◌, ◌++◌, if◌then◌else◌, get_elem?,
  String,
}
use nexus_task.Task.{TaskOptions, Outcome, returns, throws, missing_executor}
use nexus_task.WorkPool.{WorkPool}
use nexus_task.Executor
use nexus_task.Executor.{Executor, UserCallback, assign, submit_with_dependencies}
use nexus_task.Distribution
use nexus_task.Distribution.{
  NodeInfo, Distributed, DistributionPolicy, broadcast, local_first, least_loaded, round_robin,
  select_node,
}

pub record SubmissionOptions (R : Type 0) : Type 0 where
  pub dependencies : List ℕ
  pub task_options : TaskOptions
  pub callback : UserCallback R

pub record Fleet (S R : Type 0) : Type 0 where
  pub cluster : Distributed ℕ
  pub local_executor : Executor S R
  pub executor_at : ℕ → Executor S R

-- The node that `select_node` points to.
abbrev pub node_at : Option ℕ → List (NodeInfo ℕ) → Option (NodeInfo ℕ)
node_at none nodes = none
node_at (some index) nodes = get_elem? nodes index

module _ {S R : Type 0} where
  -- What a submission to an executor does to the fleet; `none` is one that does not return.
  abbrev pub at_home :
      Fleet S R → Option (Executor S R × Outcome ℕ) → Option (Fleet S R × Outcome ℕ)
  at_home f none = none
  at_home f (some (x, reply)) = some (record f { local_executor = x }, reply)

  abbrev pub away :
      ℕ → Fleet S R → Option (Executor S R × Outcome ℕ) → Option (Fleet S R × Outcome ℕ)
  away e f none = none
  away e f (some (x, reply)) = some (record f { executor_at = assign e x f.executor_at }, reply)

  -- `ids.empty() ? 0 : ids.front()`
  abbrev pub front : Option (Fleet S R × Outcome (List ℕ)) → Option (Fleet S R × Outcome ℕ)
  front none = none
  front (some (f, throws e)) = some (f, throws e)
  front (some (f, returns [])) = some (f, returns 0)
  front (some (f, returns (id ∷ ids))) = some (f, returns id)

  module _ (work : WorkPool S) (now : ℕ) (name : String) (submission : SubmissionOptions R) where
    unfoldable pub submit_local : Fleet S R → Option (Fleet S R × Outcome ℕ)
    submit_local f =
        at_home f (
          Executor.submit work now name submission.task_options submission.callback
            f.local_executor)

    -- The callback of `enable_in_memory_transport`, behind its test for an executor.
    unfoldable pub submit_on : List ℕ → Executor S R → Option (Executor S R × Outcome ℕ)
    submit_on [] x = Executor.submit work now name submission.task_options submission.callback x
    submit_on (d ∷ ds) x =
        submit_with_dependencies work now name submission.task_options (d ∷ ds) submission.callback
          x

    unfoldable pub remote_submitter : NodeInfo ℕ → Fleet S R → Option (Fleet S R × Outcome ℕ)
    remote_submitter node f = elim node.remote_executor [
      | none ↦ some (f, throws missing_executor)
      | some e ↦ away e f (submit_on submission.dependencies (f.executor_at e))
    ]

    -- The loop of `broadcast`, with the ids so far; an exception ends it.
    unfoldable pub broadcast_each :
        List (NodeInfo ℕ) → List ℕ → Fleet S R → Option (Fleet S R × Outcome (List ℕ))
    broadcast_each [] ids f = some (f, returns ids)
    broadcast_each (node ∷ nodes) ids f =
        let skipped = broadcast_each nodes ids f in
        if node.reachable
        then elim (remote_submitter node f) [
          | none ↦ none
          | some (f', reply) ↦ elim reply [
            | throws e ↦ some (f', throws e)
            | returns id ↦ broadcast_each nodes (ids ++ id ∷ []) f'
          ]
        ]
        else skipped

    unfoldable pub broadcast_all : Fleet S R → Option (Fleet S R × Outcome (List ℕ))
    broadcast_all f = elim (submit_local f) [
      | none ↦ none
      | some (f', reply) ↦ elim reply [
        | throws e ↦ some (f', throws e)
        | returns id ↦
            if f.cluster.has_submitter
            then broadcast_each f.cluster.nodes (id ∷ []) f'
            else some (f', returns (id ∷ []))
      ]
    ]

    -- `submit` behind `select_node`, with the node that it found.
    unfoldable pub submit_to : Option (NodeInfo ℕ) → Fleet S R → Option (Fleet S R × Outcome ℕ)
    submit_to none f = submit_local f
    submit_to (some node) f =
        if f.cluster.has_submitter && node.reachable
        then remote_submitter node f
        else submit_local f

    unfoldable pub submit_selected : Fleet S R → Option (Fleet S R × Outcome ℕ)
    submit_selected f =
        let (cluster, index) = select_node f.cluster in
        submit_to (node_at index cluster.nodes) (record f { cluster = cluster })

    unfoldable pub submit_by : DistributionPolicy → Fleet S R → Option (Fleet S R × Outcome ℕ)
    submit_by broadcast f = front (broadcast_all f)
    submit_by local_first f = submit_selected f
    submit_by least_loaded f = submit_selected f
    submit_by round_robin f = submit_selected f

    unfoldable pub submit : Fleet S R → Option (Fleet S R × Outcome ℕ)
    submit f = submit_by f.cluster.policy f

  -- The submitter is `remote_submitter`.
  unfoldable pub enable_in_memory_transport : Fleet S R → Fleet S R
  enable_in_memory_transport f = record f { cluster = record f.cluster { has_submitter = true } }

  -- `start`, and `stop` without the joins.
  unfoldable pub start : Fleet S R → Fleet S R
  start f = record f { cluster = record f.cluster { running = true } }

  unfoldable pub stop : WorkPool S → Fleet S R → Fleet S R
  stop work f = record f {
    cluster = record f.cluster { running = false };
    local_executor = Executor.stop work f.local_executor;
  }

  -- The constructor starts its executor.
  abbrev pub new_fleet : Executor S R → (ℕ → Executor S R) → Fleet S R
  new_fleet local_executor executor_at = record {
    cluster = record {
      running = false;
      policy = local_first;
      has_submitter = false;
      round_robin_cursor = 0;
      nodes = [];
    };
    local_executor = Executor.start local_executor;
    executor_at = executor_at;
  }
