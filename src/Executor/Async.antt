-- ===== src/Executor/Async.antt =====
-- `submit_async`: the callback that it sets and `fulfill_promise` set the same promise.
use nexus_task.Prelude.{
  ℕ, ◌≡◌, refl, ap, ap₂, ◌∙◌, [], none, some, false, lookup, erase, lookup-erase, nat_eq, arith,
  pos,
}
use nexus_task.Task.{
  Task, Outcome, returns, throws, Readings, execute, promise_already_satisfied, can_retry,
  execution_time,
}
use nexus_task.Monitor.{record_completion, record_failure}
use nexus_task.WorkPool.{WorkPool}
use nexus_task.Executor.{
  Executor, fulfilling, assign, on_task, settle, settle_registered, run_callback, finish,
  invoke_callback, on_start, on_success, give_up, handle_failure, on_failure, run_task,
}

module _ {S R : Type 0} (x : Executor S R) (p a : ℕ) (result : R) where
  abbrev set_once : Executor S R
  set_once = record x { promise_of = assign a (some (returns result)) x.promise_of }

  abbrev pub after_callback : Executor S R
  after_callback = record set_once { task_promises = erase (x.graph.heap p).id x.task_promises }

module _ {S R : Type 0} (x : Executor S R) (p a : ℕ) (result : R)
    (wrapped : x.callback_of p ≡ fulfilling a none)
    (registered : lookup (x.graph.heap p).id x.task_promises ≡ some a)
    (unset : x.promise_of a ≡ none) where
  set : (set_once x p a result).promise_of a ≡ some (returns result)
  set = ground arith

  callback_sets : run_callback (x.callback_of p) result x ≡ ((set_once x p a result), none)
  unfolding run_callback settle
  callback_sets = rw (wrapped, run_callback) (rw (unset, settle) refl)

  second_throws :
      settle_registered (x.graph.heap p).id (returns result) (set_once x p a result)
      ≡ (after_callback x p a result, some promise_already_satisfied)
  unfolding settle_registered settle
  second_throws = rw (registered, settle_registered) (rw (set, settle) refl)

  -- The callback of an asynchronous task sets the promise of the client, and then throws, since
  -- `fulfill_promise` sets it again: no dependent is notified.
  pub invoke_callback-async :
      invoke_callback p result x ≡ (after_callback x p a result, some promise_already_satisfied)
  unfolding invoke_callback
  invoke_callback-async =
      rw (callback_sets, invoke_callback)
        (rw callback_sets
          (rw (second_throws, invoke_callback) (rw callback_sets (rw second_throws refl))))

-- `execute` changes neither the id nor the options.
execute_fields :
    {R : Type 0} (r : Readings) (outcome : Outcome R) (t : Task)
    → ((execute r outcome t).0.id ≡ t.id) × ((execute r outcome t).0.options ≡ t.options)
unfolding execute
execute_fields r (returns a) t = ground arith
execute_fields r (throws e) t = ground arith

no_retry : (t : Task) → t.options.max_retries ≡ 0 → can_retry t ≡ false
unfolding can_retry
no_retry t h = ground arith

module _ {S R : Type 0} (x : Executor S R) (now p a : ℕ) (readings : Readings) (result : R) where
  abbrev ran : Executor S R
  ran =
      let started = on_start now p x in
      on_task (λ _. (execute readings (returns result) (started.graph.heap p)).0) p started

  abbrev completed : Executor S R
  completed = record ran {
    metrics = record_completion [] [] (pos (execution_time (ran.graph.heap p))) ran.metrics;
  }

  abbrev settled : Executor S R
  settled = after_callback completed p a result

  abbrev failing : Executor S R
  failing = record settled { metrics = record_failure settled.metrics }

module _ {S R : Type 0} (work : WorkPool S) (x : Executor S R) (now p a : ℕ) (readings : Readings)
    (result : R) (wrapped : x.callback_of p ≡ fulfilling a none)
    (registered : lookup (x.graph.heap p).id x.task_promises ≡ some a)
    (unset : x.promise_of a ≡ none)
    (succeeds : (execute readings (returns result) (x.graph.heap p)).1 ≡ returns result)
    (no_retries : (x.graph.heap p).options.max_retries ≡ 0) where
  ran_at :
      (ran x now p a readings result).graph.heap p
      ≡ (execute readings (returns result) (x.graph.heap p)).0
  unfolding on_start
  ran_at = ground arith

  completed_id : ((ran x now p a readings result).graph.heap p).id ≡ (x.graph.heap p).id
  completed_id =
      ap (λ t. t.id) ran_at ∙ (execute_fields readings (returns result) (x.graph.heap p)).0

  completed_fields :
      ((completed x now p a readings result).callback_of ≡ x.callback_of)
      × ((completed x now p a readings result).promise_of ≡ x.promise_of)
      × ((completed x now p a readings result).task_promises ≡ x.task_promises)
  unfolding on_start
  completed_fields = (refl, refl, refl)

  success-throws :
      on_success p result (ran x now p a readings result)
      ≡ ((settled x now p a readings result), some promise_already_satisfied)
  unfolding on_success
  success-throws =
      let (cs, ps, ts) = completed_fields in
      invoke_callback-async (completed x now p a readings result) p a result
        (ap (λ c. c p) cs ∙ wrapped) (ap₂ (λ id m. lookup id m) completed_id ts ∙ registered)
        (ap (λ f. f a) ps ∙ unset)

  none_registered :
      settle_registered
        ((failing x now p a readings result).graph.heap p).id
        (throws promise_already_satisfied)
        (failing x now p a readings result)
      ≡ ((failing x now p a readings result), none)
  unfolding settle_registered
  none_registered =
      let id = ((failing x now p a readings result).graph.heap p).id in
      let gone : lookup id (failing x now p a readings result).task_promises ≡ none =
        lookup-erase id id (completed x now p a readings result).task_promises ∙ ground arith in
      rw (gone, settle_registered) refl

  gave_up : give_up p promise_already_satisfied (failing x now p a readings result) ≡ (
    finish
        ((failing x now p a readings result).graph.heap p).id
        p
        (failing x now p a readings result),
    none,
  )
  unfolding give_up
  gave_up = rw (none_registered, give_up) (rw none_registered refl)

  failure :
      on_failure work p promise_already_satisfied (settled x now p a readings result)
      ≡ some (
        finish
            ((failing x now p a readings result).graph.heap p).id
            p
            (failing x now p a readings result),
        none,
      )
  unfolding on_failure handle_failure
  failure =
      let options =
        ap (λ t. t.options) ran_at
        ∙ (execute_fields readings (returns result) (x.graph.heap p)).1 in
      let none_left =
        no_retry ((ran x now p a readings result).graph.heap p)
          (ap (λ o. o.max_retries) options ∙ no_retries) in
      rw (none_left, on_failure, handle_failure) (rw gave_up refl)

  started_result :
      (execute readings (returns result) ((on_start now p x).graph.heap p)).1 ≡ returns result
  unfolding on_start
  started_result = succeeds

  run :
      run_task work now readings (returns result) p x
      ≡ some (
        finish
            ((failing x now p a readings result).graph.heap p).id
            p
            (failing x now p a readings result),
        none,
      )
  unfolding run_task
  run = rw (started_result, run_task) (rw (success-throws, run_task) (rw success-throws failure))
