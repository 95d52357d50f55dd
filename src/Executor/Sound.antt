-- ===== src/Executor/Sound.antt =====
-- The ids and addresses that `submit_internal` gives out, and the graph that it builds.
use nexus_task.Prelude.{
  ℕ, ◌+◌, ◌<◌, ◌≡◌, refl, ap, ◌∙◌, sym, List, [], ◌∷◌, Option, none, some, if◌then◌else◌, ◌=ℕ◌,
  lookup, lookup-insert, nat_eq, arith, word, String, Option-cases, inl, inr,
}
use nexus_task.Task.{Task, TaskOptions, create}
use nexus_task.Graph.{Graph, Heap, add_task, add_dependency}
use nexus_task.Graph.Wired.{IsWired}
use nexus_task.Graph.Edges.{add_task-IsWired, add_dependency-IsWired, empty-IsWired}
use nexus_task.Executor.{Executor, Callback, assign, enter, add_dependencies, new_executor}

-- The graph is well formed, and the next id and the next address are new.
pub record IsSound {S R : Type 0} (x : Executor S R) : Type 0 where
  pub wired : IsWired x.graph
  pub ids_used : (k p : ℕ) → lookup k x.graph.tasks ≡ some p → k < x.next_task_id
  pub addresses_used : (k p : ℕ) → lookup k x.graph.tasks ≡ some p → p < x.allocated

pub new_executor-IsSound :
    {S R : Type 0} (pool : S) (heap : Heap) → IsSound {S = S} {R = R} (new_executor pool heap)
unfolding new_executor
new_executor-IsSound pool heap = record {
  wired = empty-IsWired heap;
  ids_used = λ k p e. ground arith;
  addresses_used = λ k p e. ground arith;
}

-- An object that the map does not reach is made.
assign-IsWired :
    (g : Graph) (n : ℕ) (t : Task)
    → ((k p : ℕ) → lookup k g.tasks ≡ some p → p < n)
    → IsWired g
    → IsWired (record g { heap = assign n t g.heap })
assign-IsWired g n t low w = record {
  distinct = w.distinct;
  named = λ k p e. ground (arith, low k p e, w.named k p e);
  up = λ k p q e h. ground (arith, low k p e, w.up k p q e, low (g.heap q).id q);
  down = λ k p q e h. ground (arith, low k p e, w.down k p q e, low (g.heap q).id q);
  matched = λ k p j q e f. ground (arith, low k p e, low j q f, w.matched k p j q e f);
}

pub add_dependencies-tasks :
    (id : ℕ) (ds : List ℕ) (g : Graph) → (add_dependencies id ds g).tasks ≡ g.tasks
unfolding add_dependencies add_dependency
add_dependencies-tasks id [] g = refl
add_dependencies-tasks id (d ∷ ds) g = add_dependencies-tasks id ds (add_dependency id d g)

add_dependencies-IsWired :
    (id : ℕ) (ds : List ℕ) (g : Graph) → IsWired g → IsWired (add_dependencies id ds g)
unfolding add_dependencies
add_dependencies-IsWired id [] g w = w
add_dependencies-IsWired id (d ∷ ds) g w =
    add_dependencies-IsWired id ds (add_dependency id d g) (add_dependency-IsWired id d g w)

module _ {S R : Type 0} (x : Executor S R) (v : IsSound x) (now : ℕ) (name : String)
    (options : TaskOptions) where
  pub id_new : lookup x.next_task_id x.graph.tasks ≡ none
  id_new = elim (Option-cases (lookup x.next_task_id x.graph.tasks)) [
    | inl e ↦ e
    | inr (p, e) ↦ absurd (omega (arith, v.ids_used x.next_task_id p e))
  ]

  abbrev pub object : Task
  object = create x.next_task_id name options now

  abbrev pub with_object : Graph
  with_object = record (x.graph) { heap = assign x.allocated object x.graph.heap }

  object_fields :
      (object.id ≡ x.next_task_id) × (object.dependencies ≡ []) × (object.dependents ≡ [])
  unfolding create
  object_fields = (refl, refl, refl)

  object_at : with_object.heap x.allocated ≡ object
  object_at = ground arith

  with_task-IsWired : IsWired (add_task x.allocated with_object)
  with_task-IsWired =
      let (i, ds, us) = object_fields in
      add_task-IsWired with_object x.allocated (rw (object_at) (rw i id_new)) (rw object_at ds)
        (rw object_at us) (assign-IsWired x.graph x.allocated object v.addresses_used v.wired)

  pub task_added :
      (k : ℕ)
      → lookup k (add_task x.allocated with_object).tasks
        ≡ (if x.next_task_id =ℕ k then some x.allocated else lookup k x.graph.tasks)
  unfolding add_task
  task_added k =
      rw (object_at)
        (rw (object_fields.0) (lookup-insert x.next_task_id k x.allocated x.graph.tasks))

  module _ (dependencies : List ℕ) (callback : Callback R) (promise : Option ℕ) where
    abbrev entered : Executor S R
    entered = enter now name options dependencies callback promise x

    tasks_after :
        (k p : ℕ)
        → lookup k entered.graph.tasks ≡ some p
        → (if x.next_task_id =ℕ k then some x.allocated else lookup k x.graph.tasks) ≡ some p
    unfolding enter
    tasks_after k p e =
        sym (task_added k)
        ∙ ap (lookup k) (
            sym (
              add_dependencies-tasks x.next_task_id dependencies
                (add_task x.allocated with_object)))
        ∙ e

    -- As long as fewer than 2^64 ids are given out, `submit_internal` enters the new task under an
    -- id and at an address that no task has, and leaves the graph well formed.
    pub enter-IsSound : x.next_task_id + 1 < word → IsSound entered
    unfolding enter
    enter-IsSound small = record {
      wired =
          add_dependencies-IsWired x.next_task_id dependencies (add_task x.allocated with_object)
            with_task-IsWired;
      ids_used = λ k p e. ground (arith, tasks_after k p e, v.ids_used k p);
      addresses_used = λ k p e. ground (arith, tasks_after k p e, v.addresses_used k p);
    }
