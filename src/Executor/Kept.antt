-- ===== src/Executor/Kept.antt =====
-- The steps other than a submission keep the ids and the edges of the tasks, the map, and the counters
-- of ids and addresses.
use nexus_task.Prelude.{ℕ, subst, List, [], ◌∷◌, inl, inr, nat_eq, Bool-cases, Option-cases, pos}
use nexus_task.Task
use nexus_task.Task.{
  Task, TaskOptions, Exception, Outcome, returns, throws, Readings, execute, try_mark_enqueued,
  can_retry, reset_for_retry, execution_time, cancelled_before, is_ready,
}
use nexus_task.Monitor.{record_failure, record_retry, record_completion, record_cancellation}
use nexus_task.WorkPool.{WorkPool}
use nexus_task.Graph.{get_task, get_ready_tasks}
use nexus_task.Executor.{
  Executor, on_task, settle_registered, run_callback, finish, invoke_callback, on_start, on_success,
  enqueue, give_up, retry, handle_failure, on_failure, run_task, cancel, enqueue_each, tick,
}
use nexus_task.Executor.Promise.{Outcome-cases}
use nexus_task.Executor.Frame.{
  Same, StepSame, Same-refl, Same-trans, StepSame-after, on_task-Same, settle_registered-Same,
  run_callback-Same, finish-Same, execute-SameTask, mark-SameTask, cancel-SameTask, reset-SameTask,
}

module _ {S R : Type 0} where
  invoke_callback-Same :
      (p : ℕ) (result : R) (x : Executor S R) → Same x (invoke_callback p result x).0
  unfolding invoke_callback
  invoke_callback-Same p result x =
      let id = (x.graph.heap p).id in
      let y = (run_callback (x.callback_of p) result x).0 in
      let z = (settle_registered id (returns result) y).0 in
      let first = run_callback-Same (x.callback_of p) result x in
      let second = Same-trans x y z first (settle_registered-Same id (returns result) y) in
      elim (Option-cases (run_callback (x.callback_of p) result x).1) [
        | inr (thrown, e) ↦ rw (e, invoke_callback) first
        | inl e ↦ elim (Option-cases (settle_registered id (returns result) y).1) [
          | inr (thrown, f) ↦ rw (e, f, invoke_callback) second
          | inl f ↦
              rw (e, f, invoke_callback)
                (Same-trans x z (finish id p z) second (finish-Same id p z))
        ]
      ]

  give_up-Same : (p : ℕ) (e : Exception) (x : Executor S R) → Same x (give_up p e x).0
  unfolding give_up
  give_up-Same p e x =
      let id = (x.graph.heap p).id in
      let y = (settle_registered id (throws e) x).0 in
      let first = settle_registered-Same id (throws e) x in
      elim (Option-cases (settle_registered id (throws e) x).1) [
        | inr (thrown, f) ↦ rw (f, give_up) first
        | inl f ↦ rw (f, give_up) (Same-trans x y (finish id p y) first (finish-Same id p y))
      ]

  pub enqueue-Same : (work : WorkPool S) (p : ℕ) (x : Executor S R) → StepSame x (enqueue work p x)
  unfolding enqueue
  enqueue-Same work p x =
      let (t, marked) = try_mark_enqueued (x.graph.heap p) in
      elim (Bool-cases marked) [
        | inr e ↦ rw (e, enqueue) (Same-refl x)
        | inl e ↦ elim (Option-cases (work.submit x.pool p t.options.priority)) [
          | inl f ↦ rw (e, f, enqueue) tt
          | inr ((pool, done), f) ↦
              rw (e, f, enqueue) (on_task-Same (λ _. t) p x (mark-SameTask (x.graph.heap p)))
        ]
      ]

  retry-Same : (work : WorkPool S) (p : ℕ) (x : Executor S R) → StepSame x (retry work p x)
  unfolding retry
  retry-Same work p x = elim (Option-cases (enqueue work p x)) [
    | inl e ↦ rw (e, retry) tt
    | inr ((x', done), e) ↦ rw (e, retry) (subst (StepSame x) e (enqueue-Same work p x))
  ]

  on_failure-Same :
      (work : WorkPool S) (p : ℕ) (e : Exception) (x : Executor S R)
      → StepSame x (on_failure work p e x)
  unfolding on_failure handle_failure
  on_failure-Same work p e x =
      let failing = record x { metrics = record_failure x.metrics } in
      let counted = record failing { metrics = record_retry failing.metrics } in
      let again = on_task reset_for_retry p counted in
      elim (Bool-cases (can_retry (x.graph.heap p))) [
        | inl more ↦
            rw (more, on_failure)
              (StepSame-after x again (retry work p again)
                (on_task-Same reset_for_retry p x (reset-SameTask (x.graph.heap p)))
                (retry-Same work p again))
        | inr over ↦ rw (over, on_failure) (give_up-Same p e failing)
      ]

  success-Same : (p : ℕ) (result : R) (x : Executor S R) → Same x (on_success p result x).0
  unfolding on_success
  success-Same p result x = invoke_callback-Same p result (record x {
    metrics = record_completion [] [] (pos (execution_time (x.graph.heap p))) x.metrics;
  })

  pub run_task-Same :
      (work : WorkPool S) (now : ℕ) (readings : Readings) (outcome : Outcome R) (p : ℕ)
      (x : Executor S R)
      → StepSame x (run_task work now readings outcome p x)
  unfolding run_task on_start
  run_task-Same work now readings outcome p x =
      let started = on_start now p x in
      let (t, result) = execute readings outcome (started.graph.heap p) in
      let ran = on_task (λ _. t) p started in
      let first : Same x ran =
        on_task-Same (λ _. t) p x (execute-SameTask readings outcome (x.graph.heap p)) in
      elim (Outcome-cases result) [
        | inr (e, f) ↦
            rw (f, run_task)
              (StepSame-after x ran (on_failure work p e ran) first (on_failure-Same work p e ran))
        | inl (a, f) ↦
            let y = (on_success p a ran).0 in
            let second = Same-trans x ran y first (success-Same p a ran) in
            elim (Option-cases (on_success p a ran).1) [
              | inl e ↦ rw (f, run_task) (rw (e, run_task) second)
              | inr (thrown, e) ↦
                  rw (f, run_task)
                    (rw (e, run_task)
                      (StepSame-after x y (on_failure work p thrown y) second
                        (on_failure-Same work p thrown y)))
            ]
      ]

  pub cancel-Same : (id : ℕ) (x : Executor S R) → Same x (cancel id x).0
  unfolding cancel
  cancel-Same id x = elim (Option-cases (get_task id x.graph)) [
    | inl e ↦ rw (e, cancel) (Same-refl x)
    | inr (p, e) ↦
        let (t, done) = Task.cancel (x.graph.heap p) in
        let cancelled = on_task (λ _. t) p x in
        let y = (settle_registered id (throws cancelled_before) cancelled).0 in
        let counted = record y { metrics = record_cancellation y.metrics } in
        let first : Same x cancelled =
          on_task-Same (λ _. t) p x (cancel-SameTask (x.graph.heap p)) in
        let second : Same x y =
          Same-trans x cancelled y first
            (settle_registered-Same id (throws cancelled_before) cancelled) in
        elim (Bool-cases done) [
          | inr f ↦ rw (e, f, cancel) (Same-refl x)
          | inl f ↦
              elim (Option-cases (settle_registered id (throws cancelled_before) cancelled).1) [
                | inl g ↦
                    rw (e, f, g, cancel)
                      (Same-trans x counted (finish id p counted) second (finish-Same id p counted))
                | inr (thrown, g) ↦ rw (e, f, g, cancel) second
              ]
        ]
  ]

  enqueue_each-Same :
      (work : WorkPool S) (ps : List ℕ) (x : Executor S R) → StepSame x (enqueue_each work ps x)
  unfolding enqueue_each
  enqueue_each-Same work [] x = Same-refl x
  enqueue_each-Same work (p ∷ ps) x = elim (Option-cases (enqueue work p x)) [
    | inl e ↦ rw (e, enqueue_each) tt
    | inr ((x', done), e) ↦
        let first : Same x x' = subst (StepSame x) e (enqueue-Same work p x) in
        elim (Bool-cases done) [
          | inr f ↦ rw (e, f, enqueue_each) first
          | inl f ↦
              rw (e, f, enqueue_each)
                (StepSame-after x x' (enqueue_each work ps x') first (enqueue_each-Same work ps x'))
        ]
  ]

  pub tick-Same : (work : WorkPool S) (x : Executor S R) → StepSame x (tick work x)
  unfolding tick
  tick-Same work x = elim (Bool-cases x.scheduler_running) [
    | inr e ↦ simp e (Same-refl x)
    | inl e ↦ simp e (enqueue_each-Same work (get_ready_tasks x.graph) x)
  ]
