-- ===== src/Executor/Promise.antt =====
-- What becomes of the promises: one that is settled keeps its outcome.
use nexus_task.Prelude.{
  ℕ, ◌≡◌, refl, List, [], ◌∷◌, Option, none, some, lookup, erase, nat_eq, arith, String, Bool-cases,
  Option-cases, inl, inr, subst, ◌⊎◌, pos,
}
use nexus_task.Task.{
  Task, TaskOptions, Exception, Outcome, returns, throws, Readings, execute, try_mark_enqueued,
  can_retry, execution_time, promise_already_satisfied, clear_enqueued_flag, reset_for_retry,
}
use nexus_task.Monitor.{record_failure, record_retry, record_completion}
use nexus_task.Task
use nexus_task.Task.{cancelled_before, is_ready}
use nexus_task.Graph.{get_task, get_ready_tasks}
use nexus_task.WorkPool.{WorkPool}
use nexus_task.Executor.{
  Executor, Callback, plain, fulfilling, on_task, settle, register_promise, settle_registered,
  run_user, run_callback, finish, invoke_callback, on_start, on_success, enqueue, give_up, retry,
  handle_failure, on_failure, run_task, enter, submit_internal, cancel, enqueue_each, tick,
}

pub Outcome-cases :
    {R : Type 0} (o : Outcome R) → ((a : R) × (o ≡ returns a)) ⊎ ((e : Exception) × (o ≡ throws e))
Outcome-cases (returns a) = inl (a, refl)
Outcome-cases (throws e) = inr (e, refl)

module _ {S R : Type 0} where
  -- Each promise that is settled before is settled the same way after.
  abbrev pub Keeps : Executor S R → Executor S R → Type 0
  Keeps x x' = (a : ℕ) (o : Outcome R) → x.promise_of a ≡ some o → x'.promise_of a ≡ some o

  -- The same, if the step ends.
  abbrev pub StepKeeps {ℓ} : {B : Type ℓ} → Executor S R → Option (Executor S R × B) → Type 0
  StepKeeps x none = Unit
  StepKeeps x (some (x', b)) = Keeps x x'

  settle-Keeps :
      (promise : ℕ) (outcome : Outcome R) (x : Executor S R) → Keeps x (settle promise outcome x).0
  unfolding settle
  settle-Keeps promise outcome x a o h = elim (Option-cases (x.promise_of promise)) [
    | inl e ↦ rw (e, settle) (ground (arith, e, h))
    | inr (o', e) ↦ rw (e, settle) h
  ]

  settle_registered-Keeps :
      (id : ℕ) (outcome : Outcome R) (x : Executor S R) → Keeps x (settle_registered id outcome x).0
  unfolding settle_registered
  settle_registered-Keeps id outcome x a o h = elim (Option-cases (lookup id x.task_promises)) [
    | inl e ↦ rw (e, settle_registered) h
    | inr (promise, e) ↦
        rw (e, settle_registered)
          (settle-Keeps promise outcome (record x { task_promises = erase id x.task_promises }) a o
            h)
  ]

  run_callback-Keeps :
      (callback : Callback R) (result : R) (x : Executor S R)
      → Keeps x (run_callback callback result x).0
  unfolding run_callback
  run_callback-Keeps (plain user) result x a o h = h
  run_callback-Keeps (fulfilling promise user) result x a o h =
      elim (Option-cases (run_user user result)) [
        | inl e ↦ rw (e, run_callback) (settle-Keeps promise (returns result) x a o h)
        | inr (thrown, e) ↦ rw (e, run_callback) h
      ]

  invoke_callback-Keeps :
      (p : ℕ) (result : R) (x : Executor S R) → Keeps x (invoke_callback p result x).0
  unfolding invoke_callback finish
  invoke_callback-Keeps p result x a o h =
      let id = (x.graph.heap p).id in
      let x' = (run_callback (x.callback_of p) result x).0 in
      let h' = run_callback-Keeps (x.callback_of p) result x a o h in
      let h'' = settle_registered-Keeps id (returns result) x' a o h' in
      elim (Option-cases (run_callback (x.callback_of p) result x).1) [
        | inr (thrown, e) ↦ rw (e, invoke_callback) h'
        | inl e ↦ elim (Option-cases (settle_registered id (returns result) x').1) [
          | inr (thrown, f) ↦ rw (e, f, invoke_callback) h''
          | inl f ↦ rw (e, f, invoke_callback) h''
        ]
      ]

  give_up-Keeps : (p : ℕ) (e : Exception) (x : Executor S R) → Keeps x (give_up p e x).0
  unfolding give_up finish
  give_up-Keeps p e x a o h =
      let id = (x.graph.heap p).id in
      let h' = settle_registered-Keeps id (throws e) x a o h in
      elim (Option-cases (settle_registered id (throws e) x).1) [
        | inr (thrown, f) ↦ rw (f, give_up) h'
        | inl f ↦ rw (f, give_up) h'
      ]

  enqueue-Keeps : (work : WorkPool S) (p : ℕ) (x : Executor S R) → StepKeeps x (enqueue work p x)
  unfolding enqueue
  enqueue-Keeps work p x =
      let (t, marked) = try_mark_enqueued (x.graph.heap p) in
      elim (Bool-cases marked) [
        | inr e ↦ rw (e, enqueue) (λ a o h. h)
        | inl e ↦ elim (Option-cases (work.submit x.pool p t.options.priority)) [
          | inl f ↦ rw (e, f, enqueue) tt
          | inr ((pool, done), f) ↦ rw (e, f, enqueue) (λ a o h. h)
        ]
      ]

  retry-Keeps : (work : WorkPool S) (p : ℕ) (x : Executor S R) → StepKeeps x (retry work p x)
  unfolding retry
  retry-Keeps work p x = elim (Option-cases (enqueue work p x)) [
    | inl e ↦ rw (e, retry) tt
    | inr ((x', done), e) ↦ rw (e, retry) (subst (StepKeeps x) e (enqueue-Keeps work p x))
  ]

  on_failure-Keeps :
      (work : WorkPool S) (p : ℕ) (e : Exception) (x : Executor S R)
      → StepKeeps x (on_failure work p e x)
  unfolding on_failure handle_failure
  on_failure-Keeps work p e x =
      let failing = record x { metrics = record_failure x.metrics } in
      elim (Bool-cases (can_retry (x.graph.heap p))) [
        | inl again ↦
            rw (again, on_failure)
              (retry-Keeps work p (
                on_task reset_for_retry p
                  (record failing { metrics = record_retry failing.metrics })))
        | inr over ↦ rw (over, on_failure) (give_up-Keeps p e failing)
      ]

  StepKeeps-after :
      {B : Type 0} (x x' : Executor S R) (step : Option (Executor S R × B))
      → Keeps x x'
      → StepKeeps x' step
      → StepKeeps x step
  StepKeeps-after x x' none k s = tt
  StepKeeps-after x x' (some (x'', b)) k s = λ a o h. s a o (k a o h)

  success-Keeps :
      (p : ℕ) (result : R) (x x' : Executor S R) → Keeps x x' → Keeps x (on_success p result x').0
  unfolding on_success
  success-Keeps p result x x' k a o h =
      invoke_callback-Keeps p result
        (record x' {
          metrics = record_completion [] [] (pos (execution_time (x'.graph.heap p))) x'.metrics;
        })
        a o (k a o h)

  -- A run of a task, whatever `func_` and the callback do, changes no promise that is settled.
  pub run_task-Keeps :
      (work : WorkPool S) (now : ℕ) (readings : Readings) (outcome : Outcome R) (p : ℕ)
      (x : Executor S R)
      → StepKeeps x (run_task work now readings outcome p x)
  unfolding run_task on_start
  run_task-Keeps work now readings outcome p x =
      let started = on_start now p x in
      let (t, result) = execute readings outcome (started.graph.heap p) in
      let ran = on_task (λ _. t) p started in
      elim (Outcome-cases result) [
        | inr (e, f) ↦
            rw (f, run_task) (StepKeeps-after x ran _ (λ a o h. h) (on_failure-Keeps work p e ran))
        | inl (a, f) ↦
            let kept : Keeps x (on_success p a ran).0 = success-Keeps p a x ran (λ b o h. h) in
            elim (Option-cases (on_success p a ran).1) [
              | inl e ↦ rw (f, run_task) (rw (e, run_task) kept)
              | inr (thrown, e) ↦
                  rw (f, run_task)
                    (rw (e, run_task)
                      (StepKeeps-after x (on_success p a ran).0 _ kept
                        (on_failure-Keeps work p thrown (on_success p a ran).0)))
            ]
      ]

  enter-Keeps :
      (now : ℕ) (name : String) (options : TaskOptions) (dependencies : List ℕ)
      (callback : Callback R) (promise : Option ℕ) (x : Executor S R)
      → Keeps x (enter now name options dependencies callback promise x)
  unfolding enter register_promise
  enter-Keeps now name options dependencies callback none x = λ a o h. h
  enter-Keeps now name options dependencies callback (some promise) x = λ a o h. h

  pub cancel-Keeps : (id : ℕ) (x : Executor S R) → Keeps x (cancel id x).0
  unfolding cancel finish
  cancel-Keeps id x a o h = elim (Option-cases (get_task id x.graph)) [
    | inl e ↦ rw (e, cancel) h
    | inr (p, e) ↦
        let (t, done) = Task.cancel (x.graph.heap p) in
        let h' =
          settle_registered-Keeps id (throws cancelled_before) (on_task (λ _. t) p x) a o h in
        elim (Bool-cases done) [
          | inr f ↦ rw (e, f, cancel) h
          | inl f ↦
              elim (Option-cases
                (settle_registered id (throws cancelled_before) (on_task (λ _. t) p x)).1) [
                  | inl g ↦ rw (e, f, g, cancel) h'
                  | inr (thrown, g) ↦ rw (e, f, g, cancel) h'
                ]
        ]
  ]

  pub submit_internal-Keeps :
      (work : WorkPool S) (now : ℕ) (name : String) (options : TaskOptions) (dependencies : List ℕ)
      (callback : Callback R) (promise : Option ℕ) (x : Executor S R)
      → StepKeeps x (submit_internal work now name options dependencies callback promise x)
  unfolding submit_internal
  submit_internal-Keeps work now name options dependencies callback promise x =
      let entered = enter now name options dependencies callback promise x in
      elim (Bool-cases (is_ready (entered.graph.heap x.allocated))) [
        | inr e ↦
            rw (e, submit_internal) (enter-Keeps now name options dependencies callback promise x)
        | inl e ↦ elim (Option-cases (enqueue work x.allocated entered)) [
          | inl f ↦ rw (e, f, submit_internal) tt
          | inr ((x', done), f) ↦
              rw (e, f, submit_internal)
                (StepKeeps-after x entered (some (x', done))
                  (enter-Keeps now name options dependencies callback promise x)
                  (subst (StepKeeps entered) f (enqueue-Keeps work x.allocated entered)))
        ]
      ]

  pub enqueue_each-Keeps :
      (work : WorkPool S) (ps : List ℕ) (x : Executor S R) → StepKeeps x (enqueue_each work ps x)
  unfolding enqueue_each
  enqueue_each-Keeps work [] x = λ a o h. h
  enqueue_each-Keeps work (p ∷ ps) x = elim (Option-cases (enqueue work p x)) [
    | inl e ↦ rw (e, enqueue_each) tt
    | inr ((x', done), e) ↦
        let k : Keeps x x' = subst (StepKeeps x) e (enqueue-Keeps work p x) in
        elim (Bool-cases done) [
          | inr f ↦ rw (e, f, enqueue_each) k
          | inl f ↦
              rw (e, f, enqueue_each)
                (StepKeeps-after x x' (enqueue_each work ps x') k (enqueue_each-Keeps work ps x'))
        ]
  ]

  pub tick-Keeps : (work : WorkPool S) (x : Executor S R) → StepKeeps x (tick work x)
  unfolding tick
  tick-Keeps work x = elim (Bool-cases x.scheduler_running) [
    | inr e ↦ simp e (λ a o h. h)
    | inl e ↦ simp e (enqueue_each-Keeps work (get_ready_tasks x.graph) x)
  ]
