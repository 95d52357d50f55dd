-- ===== src/Graph.antt =====
-- include/task_engine/dependency_graph.hpp: DependencyGraph. The tasks are objects on a heap, which
-- the graph's map and the tasks' own edge lists point to. Each method runs under the mutex, so it
-- is one step. A task that the map lets go stays on the heap.
mod Tests
pub mod Wired
mod Kahn
mod Acyclic
mod Bridge
mod Reading
pub mod Topology
pub mod Edges
pub mod Countdown
pub mod Remove
use nexus_task.Prelude.{
  ℕ, zero, suc, ◌+◌, ◌-◌, ◌≤◌, ◌<◌, ◌≡◌, Bool, true, false, not, ◌&&◌, ◌||◌, Option, none, some,
  List, [], ◌∷◌, ◌++◌, map, if◌then◌else◌, ◌=ℕ◌, lookup, lookup_or, insert, erase, has, nat_eq,
  length, keep_if, sub64,
}
use nexus_task.Task.{
  Task, TaskStatus, completed, failed, cancelled, status_eq, push_dependency, push_dependent,
  count_dependency, notify_dependency_completed, is_ready,
}
use nexus_task.Prelude.{pred_ℤ}

abbrev pub Heap : Type 0
Heap = ℕ → Task

-- `f` is done to the task at `p`.
abbrev pub modify : (Task → Task) → ℕ → Heap → Heap
modify f p heap q = if p =ℕ q then f (heap q) else heap q

-- `tasks` maps an id to the address of its task.
pub record Graph : Type 0 where
  pub heap : Heap
  pub tasks : List (ℕ × ℕ)

unfoldable pub add_task : ℕ → Graph → Graph
add_task p g = record g { tasks = insert (g.heap p).id p g.tasks }

-- `Task::add_dependency`: the three writes, in their order, also where both are one task.
pub link : ℕ → ℕ → Heap → Heap
unfolding push_dependency push_dependent count_dependency
link p dependency heap =
    modify count_dependency p
      (modify (push_dependent p) dependency (modify (push_dependency dependency) p heap))

pub link_found : Option ℕ → Option ℕ → Heap → Heap
unfolding link
link_found none dep heap = heap
link_found (some p) none heap = heap
link_found (some p) (some dep) heap = link p dep heap

unfoldable pub add_dependency : ℕ → ℕ → Graph → Graph
unfolding link_found
add_dependency task_id dependency_id g = record g {
  heap = link_found (lookup task_id g.tasks) (lookup dependency_id g.tasks) g.heap;
}

unfoldable pub get_ready_tasks : Graph → List ℕ
unfolding is_ready
get_ready_tasks g = keep_if (λ p. is_ready (g.heap p)) (map (λ entry. entry.1) g.tasks)

unfoldable pub notify_each : List ℕ → Heap → Heap
unfolding notify_dependency_completed
notify_each [] heap = heap
notify_each (p ∷ ps) heap = notify_each ps (modify notify_dependency_completed p heap)

unfoldable pub notify_task_completed : ℕ → Graph → Graph
unfolding notify_each
notify_task_completed task_id g = elim (lookup task_id g.tasks) [
  | none ↦ g
  | some p ↦ record g { heap = notify_each (g.heap p).dependents g.heap }
]

unfoldable pub is_terminal : TaskStatus → Bool
unfolding status_eq
is_terminal s = status_eq s completed || status_eq s failed || status_eq s cancelled

unfoldable pub all_completed_in : Heap → List (ℕ × ℕ) → Bool
unfolding is_terminal
all_completed_in heap [] = true
all_completed_in heap ((id, p) ∷ ts) =
    if not (is_terminal (heap p).status) then false else all_completed_in heap ts

unfoldable pub all_completed : Graph → Bool
unfolding all_completed_in
all_completed g = all_completed_in g.heap g.tasks

unfoldable pub get_task : ℕ → Graph → Option ℕ
get_task id g = lookup id g.tasks

-- `v.erase(std::remove(v.begin(), v.end(), x), v.end())`
abbrev pub remove_all : ℕ → List ℕ → List ℕ
remove_all x = keep_if (λ y. not (x =ℕ y))

pub detach_dependent : ℕ → Task → Task
detach_dependent p t = record t { dependents = remove_all p t.dependents }

pub detach_dependency : ℕ → Task → Task
detach_dependency p t = record t {
  dependencies = remove_all p t.dependencies;
  dependencies_count = pred_ℤ t.dependencies_count;
}

pub detach_dependents : ℕ → List ℕ → Heap → Heap
unfolding detach_dependent
detach_dependents p [] heap = heap
detach_dependents p (q ∷ qs) heap = detach_dependents p qs (modify (detach_dependent p) q heap)

pub detach_dependencies : ℕ → List ℕ → Heap → Heap
unfolding detach_dependency
detach_dependencies p [] heap = heap
detach_dependencies p (q ∷ qs) heap = detach_dependencies p qs (modify (detach_dependency p) q heap)

-- The second loop reads the dependents that the first has left.
unfoldable pub remove_task : ℕ → Graph → Graph × Bool
unfolding detach_dependents detach_dependencies
remove_task id g = elim (lookup id g.tasks) [
  | none ↦ (g, false)
  | some p ↦
      let heap' = detach_dependents p (g.heap p).dependencies g.heap in
      (
        record {
          heap = detach_dependencies p (heap' p).dependents heap';
          tasks = erase id g.tasks;
        },
        true,
      )
]

unfoldable pub task_count : Graph → ℕ
task_count g = length g.tasks

unfoldable pub contains : ℕ → Graph → Bool
contains id g = has id g.tasks

unfoldable pub ids_of : Heap → List ℕ → List ℕ
ids_of heap = map (λ p. (heap p).id)

unfoldable pub dependents : ℕ → Graph → List ℕ
unfolding ids_of
dependents id g = elim (lookup id g.tasks) [
  | none ↦ []
  | some p ↦ ids_of g.heap (g.heap p).dependents
]

unfoldable pub clear : Graph → Graph
clear g = record g { tasks = [] }

-- The first loop of `topological_order`.
pub indegrees : Heap → List (ℕ × ℕ) → List (ℕ × ℕ) → List (ℕ × ℕ)
indegrees heap [] indegree = indegree
indegrees heap ((id, p) ∷ ts) indegree =
    indegrees heap ts (insert id (length (heap p).dependencies) indegree)

pub push_each : ℕ → List ℕ → List (ℕ × List ℕ) → List (ℕ × List ℕ)
push_each id [] adjacency = adjacency
push_each id (d ∷ ds) adjacency =
    push_each id ds (insert id (lookup_or id [] adjacency ++ d ∷ []) adjacency)

pub adjacencies : Heap → List (ℕ × ℕ) → List (ℕ × List ℕ) → List (ℕ × List ℕ)
unfolding push_each ids_of
adjacencies heap [] adjacency = adjacency
adjacencies heap ((id, p) ∷ ts) adjacency =
    adjacencies heap ts (push_each id (ids_of heap (heap p).dependents) adjacency)

-- The second loop: the ids of degree zero.
pub initial_ready : List (ℕ × ℕ) → List ℕ
initial_ready [] = []
initial_ready ((id, degree) ∷ m) = if degree =ℕ 0 then id ∷ initial_ready m else initial_ready m

-- The loop over the dependents of a task that is placed: the degrees and the queue after it.
pub relax : List ℕ → List (ℕ × ℕ) → List ℕ → List (ℕ × ℕ) × List ℕ
relax [] indegree ready = (indegree, ready)
relax (d ∷ ds) indegree ready =
    let degree = sub64 (lookup_or d 0 indegree) 1 in
    relax ds (insert d degree indegree) (if degree =ℕ 0 then ready ++ d ∷ [] else ready)

-- The `while` loop, on fuel; `none` is a loop that has not ended.
pub place : ℕ → (ℕ → List ℕ) → List (ℕ × ℕ) → List ℕ → List ℕ → Option (List ℕ)
unfolding relax
place fuel adjacency indegree [] order = some order
place zero adjacency indegree (id ∷ ready) order = none
place (suc fuel) adjacency indegree (id ∷ ready) order =
    let (indegree', ready') = relax (adjacency id) indegree ready in
    place fuel adjacency indegree' ready' (order ++ id ∷ [])

-- As many rounds as there are tasks are enough (`Graph.Topology`).
unfoldable pub topological_order : Graph → Option (List ℕ)
unfolding indegrees adjacencies initial_ready place
topological_order g =
    let indegree = indegrees g.heap g.tasks [] in
    let adjacency = adjacencies g.heap g.tasks [] in
    place (length g.tasks) (λ id. lookup_or id [] adjacency) indegree (initial_ready indegree) []

unfoldable pub has_cycles : Graph → Option Bool
unfolding topological_order
has_cycles g = elim (topological_order g) [
  | none ↦ none
  | some order ↦ some (not (length order =ℕ length g.tasks))
]
