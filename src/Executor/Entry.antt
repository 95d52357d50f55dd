-- ===== src/Executor/Entry.antt =====
-- The map and the dependencies after `submit_internal` has entered a task.
use nexus_task.Prelude.{
  ℕ, ◌≡◌, ap, ◌∙◌, arith, Option, some, List, [], ◌∷◌, ◌++◌, if◌then◌else◌, ◌=ℕ◌, lookup, nat_eq,
  String,
}
use nexus_task.Task.{TaskOptions, create}
use nexus_task.Graph.{add_task}
use nexus_task.Graph.Edges.{add_dependency-dependencies}
use nexus_task.Executor.{Executor, Callback, enter, add_dependencies}
use nexus_task.Executor.Sound.{IsSound, task_added, add_dependencies-tasks, with_object}

module _ {S R : Type 0} (x : Executor S R) (v : IsSound x) (now : ℕ) (name : String)
    (options : TaskOptions) (callback : Callback R) (promise : Option ℕ) where
  abbrev dependencies_of : Executor S R → ℕ → List ℕ
  dependencies_of y p = (y.graph.heap p).dependencies

  -- The id maps to the new object, and the other ids to what they did.
  pub lookup-enter :
      (ds : List ℕ) (k : ℕ)
      → lookup k (enter now name options ds callback promise x).graph.tasks
        ≡ (if x.next_task_id =ℕ k then some x.allocated else lookup k x.graph.tasks)
  unfolding enter
  lookup-enter ds k =
      ap (lookup k) (
        add_dependencies-tasks x.next_task_id ds
          (add_task x.allocated (with_object x v now name options)))
      ∙ task_added x v now name options k

  -- A task with no dependency.
  pub enter_alone :
      (p : ℕ)
      → dependencies_of (enter now name options [] callback promise x) p
        ≡ (if x.allocated =ℕ p then [] else dependencies_of x p)
  unfolding enter add_dependencies add_task create
  enter_alone p = ground arith

  fresh_dependencies :
      (q p : ℕ)
      → let ds = ((add_task x.allocated (with_object x v now name options)).heap p).dependencies in
        (if x.allocated =ℕ p then ds ++ q ∷ [] else ds)
        ≡ (if x.allocated =ℕ p then q ∷ [] else dependencies_of x p)
  unfolding add_task create
  fresh_dependencies q p = ground arith

  -- A task with one, which the map knows.
  pub enter_behind :
      (d q : ℕ)
      → lookup d x.graph.tasks ≡ some q
      → (p : ℕ)
      → dependencies_of (enter now name options (d ∷ []) callback promise x) p
        ≡ (if x.allocated =ℕ p then q ∷ [] else dependencies_of x p)
  unfolding enter add_dependencies
  enter_behind d q found p =
      let g = add_task x.allocated (with_object x v now name options) in
      let own : lookup x.next_task_id g.tasks ≡ some x.allocated =
        task_added x v now name options x.next_task_id ∙ ground arith in
      let other : lookup d g.tasks ≡ some q =
        task_added x v now name options d ∙ ground (arith, found, v.ids_used d q found) in
      add_dependency-dependencies x.next_task_id d g x.allocated q p own other
      ∙ fresh_dependencies q p
