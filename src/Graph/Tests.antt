-- ===== src/Graph/Tests.antt =====
-- DependencyGraph on small graphs: runs of its operations, and the theorems at them.
use nexus_task.Prelude.{
  ℕ, ◌≤◌, ◌<◌, ◌≡◌, ◌↔◌, refl, true, false, Bool, none, some, List, [], ◌∷◌, lookup, nat_eq, length,
  count, word, arith,
}
use nexus_task.Task.{TaskOptions, normal, create}
use nexus_task.Graph.{
  Graph, Heap, add_task, add_dependency, notify_task_completed, remove_task, contains,
  topological_order, has_cycles, dependents, get_ready_tasks,
}
use nexus_task.Graph.Wired.{IsWired, keys}
use nexus_task.Graph.Kahn.{Respects, IsRanked}
use nexus_task.Graph.Edges.{empty-IsWired, add_task-IsWired, add_dependency-IsWired}
use nexus_task.Graph.Remove.{remove_task-IsWired}
use nexus_task.Graph.Countdown.{IsCounted, notify_task_completed-IsCounted}
use nexus_task.Graph.Topology.{
  topological_order_sound, has_cycles-exact, topological_order_complete,
}

abbrev plain : TaskOptions
plain = record {
  priority = normal;
  max_retries = 0;
  timeout = 0;
  deadline = none;
  category = "";
  track_metrics = true;
}

-- New tasks, each with its address for an id.
abbrev new_heap : Heap
unfolding create
new_heap p = create p "task" plain 0

abbrev no_graph : Graph
no_graph = record { heap = new_heap; tasks = [] }

abbrev one_task : Graph
one_task = add_task 1 no_graph

abbrev two_tasks : Graph
two_tasks = add_task 2 one_task

-- Task 2 depends on task 1.
abbrev chain : Graph
chain = add_dependency 2 1 two_tasks

-- And task 1 on task 2.
abbrev loop : Graph
loop = add_dependency 1 2 chain

one_task-IsWired : IsWired one_task
unfolding new_heap
one_task-IsWired = add_task-IsWired no_graph 1 refl refl refl (empty-IsWired new_heap)

two_tasks-IsWired : IsWired two_tasks
unfolding add_task new_heap
two_tasks-IsWired = add_task-IsWired one_task 2 refl refl refl one_task-IsWired

chain-IsWired : IsWired chain
chain-IsWired = add_dependency-IsWired 2 1 two_tasks two_tasks-IsWired

chain_small : (k p : ℕ) → lookup k chain.tasks ≡ some p → length (chain.heap p).dependencies < word
unfolding add_task add_dependency new_heap
chain_small k p e = ground arith

chain_order : topological_order chain ≡ some (1 ∷ 2 ∷ [])
unfolding topological_order add_task add_dependency new_heap
chain_order = refl

chain_ready : get_ready_tasks chain ≡ 1 ∷ []
unfolding get_ready_tasks add_task add_dependency new_heap
chain_ready = refl

chain_dependents : dependents 1 chain ≡ 2 ∷ []
unfolding dependents add_task add_dependency new_heap
chain_dependents = refl

chain_next : get_ready_tasks (notify_task_completed 1 chain) ≡ 1 ∷ 2 ∷ []
unfolding get_ready_tasks notify_task_completed add_task add_dependency new_heap
chain_next = refl

loop_order : topological_order loop ≡ some []
unfolding topological_order add_task add_dependency new_heap
loop_order = refl

loop_cycles : has_cycles loop ≡ some true
unfolding has_cycles add_task add_dependency new_heap
loop_cycles = refl

chain-IsCounted : IsCounted chain []
unfolding add_task add_dependency new_heap
chain-IsCounted = record { once = λ p. omega arith; counted = λ k q e. ground arith }

chain-IsRanked : IsRanked (keys chain.tasks) (λ u. dependents u chain) (λ v. v)
unfolding add_task add_dependency dependents new_heap
chain-IsRanked = record { grows = λ u v hu hv e. ground arith }

topological_order_sound_example :
    (order : List ℕ) × (topological_order chain ≡ some order)
    × ((v : ℕ) → count v order ≤ count v (keys chain.tasks))
    × Respects (keys chain.tasks) (λ u. dependents u chain) [] order
topological_order_sound_example = topological_order_sound chain chain-IsWired chain_small

has_cycles-exact_example :
    (cyclic : Bool) × (has_cycles chain ≡ some cyclic)
    × ((cyclic ≡ false)
        ↔ ((rank : ℕ → ℕ) × IsRanked (keys chain.tasks) (λ u. dependents u chain) rank))
has_cycles-exact_example = has_cycles-exact chain chain-IsWired chain_small

topological_order_complete_example :
    (order : List ℕ) × (topological_order chain ≡ some order)
    × ((v : ℕ) → count v order ≡ count v (keys chain.tasks))
topological_order_complete_example =
    topological_order_complete chain chain-IsWired chain_small (λ v. v) chain-IsRanked

notify_task_completed-IsCounted_example : IsCounted (notify_task_completed 1 chain) (1 ∷ [])
unfolding add_task add_dependency new_heap
notify_task_completed-IsCounted_example =
    notify_task_completed-IsCounted chain [] chain-IsWired chain-IsCounted 1 1 refl refl

remove_task-IsWired_example :
    IsWired (remove_task 1 chain).0
    × ((remove_task 1 chain).1 ≡ contains 1 chain)
    × (contains 1 (remove_task 1 chain).0 ≡ false)
remove_task-IsWired_example = remove_task-IsWired 1 chain chain-IsWired

add_dependency-IsWired_example : IsWired loop
add_dependency-IsWired_example = add_dependency-IsWired 1 2 chain chain-IsWired
