-- ===== src/Executor/Frame.antt =====
-- What a call may change while the ids and edges of the tasks, the map, and the counters of ids and
-- addresses stay; and that the parts of the steps do no more.
use nexus_task.Prelude.{
  ℕ, ◌≡◌, refl, ◌∙◌, Option, none, some, inl, inr, lookup, erase, nat_eq, arith, Option-cases,
}
use nexus_task.Task
use nexus_task.Task.{
  Task, Exception, Outcome, returns, throws, Readings, execute, try_mark_enqueued,
  clear_enqueued_flag, can_retry, reset_for_retry, execution_time, cancelled_before,
}
use nexus_task.Graph.{Heap, modify, notify_task_completed}
use nexus_task.Graph.Edges.{SameEdges, notify_each-SameEdges}
use nexus_task.Executor.{
  Executor, Callback, plain, fulfilling, on_task, settle, settle_registered, run_user, run_callback,
  finish,
}

-- A task keeps its id and its edges.
abbrev pub SameTask : Task → Task → Type 0
SameTask t t' = (t'.id ≡ t.id) × (t'.dependencies ≡ t.dependencies) × (t'.dependents ≡ t.dependents)

SameEdges-refl : (heap : Heap) → SameEdges heap heap
SameEdges-refl heap = record {
  id_kept = λ p. refl;
  dependencies_kept = λ p. refl;
  dependents_kept = λ p. refl;
}

SameEdges-trans : (a b c : Heap) → SameEdges a b → SameEdges b c → SameEdges a c
SameEdges-trans a b c s t = record {
  id_kept = λ p. t.id_kept p ∙ s.id_kept p;
  dependencies_kept = λ p. t.dependencies_kept p ∙ s.dependencies_kept p;
  dependents_kept = λ p. t.dependents_kept p ∙ s.dependents_kept p;
}

modify-SameEdges :
    (f : Task → Task) (p : ℕ) (heap : Heap)
    → SameTask (heap p) (f (heap p))
    → SameEdges heap (modify f p heap)
modify-SameEdges f p heap (i, ds, us) = record {
  id_kept = λ q. ground (arith, i);
  dependencies_kept = λ q. ground (arith, ds);
  dependents_kept = λ q. ground (arith, us);
}

pub execute-SameTask :
    {R : Type 0} (r : Readings) (outcome : Outcome R) (t : Task)
    → SameTask t (execute r outcome t).0
unfolding execute
execute-SameTask r (returns a) t = ground arith
execute-SameTask r (throws e) t = ground arith

pub mark-SameTask : (t : Task) → SameTask t (try_mark_enqueued t).0
unfolding try_mark_enqueued
mark-SameTask t = ground arith

pub cancel-SameTask : (t : Task) → SameTask t (Task.cancel t).0
unfolding Task.cancel
cancel-SameTask t = ground arith

pub reset-SameTask : (t : Task) → SameTask t (reset_for_retry t)
unfolding reset_for_retry
reset-SameTask t = (refl, refl, refl)

clear-SameTask : (t : Task) → SameTask t (clear_enqueued_flag t)
unfolding clear_enqueued_flag
clear-SameTask t = (refl, refl, refl)

module _ {S R : Type 0} where
  abbrev pub Same : Executor S R → Executor S R → Type 0
  Same x x' =
      SameEdges x.graph.heap x'.graph.heap
      × (x'.graph.tasks ≡ x.graph.tasks)
      × (x'.next_task_id ≡ x.next_task_id)
      × (x'.allocated ≡ x.allocated)

  abbrev pub StepSame : {B : Type 0} → Executor S R → Option (Executor S R × B) → Type 0
  StepSame x none = Unit
  StepSame x (some (x', b)) = Same x x'

  pub Same-refl : (x : Executor S R) → Same x x
  Same-refl x = (SameEdges-refl x.graph.heap, refl, refl, refl)

  pub Same-trans : (x y z : Executor S R) → Same x y → Same y z → Same x z
  Same-trans x y z (e, t, i, a) (e', t', i', a') =
      (SameEdges-trans x.graph.heap y.graph.heap z.graph.heap e e', t' ∙ t, i' ∙ i, a' ∙ a)

  pub StepSame-after :
      {B : Type 0} (x y : Executor S R) (step : Option (Executor S R × B))
      → Same x y
      → StepSame y step
      → StepSame x step
  StepSame-after x y none s t = tt
  StepSame-after x y (some (z, b)) s t = Same-trans x y z s t

  pub on_task-Same :
      (f : Task → Task) (p : ℕ) (x : Executor S R)
      → SameTask (x.graph.heap p) (f (x.graph.heap p))
      → Same x (on_task f p x)
  on_task-Same f p x s = (modify-SameEdges f p x.graph.heap s, refl, refl, refl)

  settle-Same :
      (promise : ℕ) (outcome : Outcome R) (x : Executor S R) → Same x (settle promise outcome x).0
  unfolding settle
  settle-Same promise outcome x = elim (Option-cases (x.promise_of promise)) [
    | inl e ↦ rw (e, settle) (Same-refl x)
    | inr (o, e) ↦ rw (e, settle) (Same-refl x)
  ]

  pub settle_registered-Same :
      (id : ℕ) (outcome : Outcome R) (x : Executor S R) → Same x (settle_registered id outcome x).0
  unfolding settle_registered
  settle_registered-Same id outcome x = elim (Option-cases (lookup id x.task_promises)) [
    | inl e ↦ rw (e, settle_registered) (Same-refl x)
    | inr (promise, e) ↦
        rw (e, settle_registered)
          (settle-Same promise outcome (record x { task_promises = erase id x.task_promises }))
  ]

  pub run_callback-Same :
      (callback : Callback R) (result : R) (x : Executor S R)
      → Same x (run_callback callback result x).0
  unfolding run_callback
  run_callback-Same (plain user) result x = Same-refl x
  run_callback-Same (fulfilling promise user) result x =
      elim (Option-cases (run_user user result)) [
        | inl e ↦ rw (e, run_callback) (settle-Same promise (returns result) x)
        | inr (thrown, e) ↦ rw (e, run_callback) (Same-refl x)
      ]

  notify-Same :
      (id : ℕ) (x : Executor S R) → Same x (record x { graph = notify_task_completed id x.graph })
  unfolding notify_task_completed
  notify-Same id x = elim (Option-cases (lookup id x.graph.tasks)) [
    | inl e ↦ rw (e, notify_task_completed) (Same-refl x)
    | inr (p, e) ↦
        rw (e, notify_task_completed)
          (notify_each-SameEdges (x.graph.heap p).dependents x.graph.heap, refl, refl, refl)
  ]

  pub finish-Same : (id p : ℕ) (x : Executor S R) → Same x (finish id p x)
  unfolding finish
  finish-Same id p x =
      let y = record x { graph = notify_task_completed id x.graph } in
      Same-trans x y (on_task clear_enqueued_flag p y) (notify-Same id x)
        (on_task-Same clear_enqueued_flag p y (clear-SameTask (y.graph.heap p)))
