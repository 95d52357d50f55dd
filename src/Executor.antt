-- ===== src/Executor.antt =====
-- include/task_engine/task_executor.hpp: TaskExecutor, and the part of `worker_loop` in
-- include/task_engine/thread_pool.hpp that runs a task and calls the hooks. Each call, each run of a
-- task and each round of the scheduler is one step; `none` is a step that waits for ever in
-- `ThreadPool::submit`.
mod Tests
pub mod Sound
pub mod Promise
pub mod Steps
pub mod Async
pub mod Once
pub mod Frame
pub mod Kept
pub mod Reach
pub mod Flags
pub mod Entry
pub mod Live
use nexus_task.Prelude.{
  ℕ, zero, suc, ◌+◌, ◌-◌, ◌/◌, ◌≤◌, ◌<◌, ◌≡◌, refl, Bool, true, false, not, ◌&&◌, ◌||◌, Option,
  none, some, List, [], ◌∷◌, ◌++◌, if◌then◌else◌, ◌=ℕ◌, ltb, lookup, insert, erase, nat_eq, add64,
  String, pos,
}
use nexus_task.Task.{
  Task, TaskOptions, TaskStatus, failed, Exception, promise_already_satisfied, pool_shutdown,
  cancelled_before, Outcome, returns, throws, Readings, create, execute, execution_time, is_ready,
  try_mark_enqueued, clear_enqueued_flag, can_retry, reset_for_retry,
}
use nexus_task.Task
use nexus_task.Monitor.{
  Metrics, initial, record_submission, record_start, record_completion, record_failure,
  record_retry, record_cancellation, record_queue_wait,
}
use nexus_task.Graph.{
  Graph, Heap, modify, add_task, add_dependency, notify_task_completed, get_task, get_ready_tasks,
  all_completed,
}
use nexus_task.WorkPool.{WorkPool}

-- What a client's callback does with a result: it may throw.
abbrev pub UserCallback : Type 0 → Type 0
UserCallback R = Option (R → Option Exception)

-- The callback of a submission: the client's, or the one that `submit_async` wraps it in.
pub data Callback (R : Type 0) : Type 0 where
  plain : UserCallback R → Callback R
  fulfilling : ℕ → UserCallback R → Callback R

-- `promise_of` is the shared state of each promise, `callback_of` the callback of each task. The
-- addresses below `allocated` are in use.
pub record Executor (S R : Type 0) : Type 0 where
  pub pool : S
  pub graph : Graph
  pub metrics : Metrics
  pub scheduler_running : Bool
  pub next_task_id : ℕ
  pub task_promises : List (ℕ × ℕ)
  pub promise_of : ℕ → Option (Outcome R)
  pub callback_of : ℕ → Callback R
  pub allocated : ℕ

-- A member of an `unordered_map` or an object on the heap is overwritten.
abbrev pub assign {ℓ} : {V : Type ℓ} → ℕ → V → (ℕ → V) → ℕ → V
assign p v f q = if p =ℕ q then v else f q

-- The constructor from a pool.
unfoldable pub new_executor : {S R : Type 0} → S → Heap → Executor S R
new_executor pool heap = record {
  pool = pool;
  graph = record { heap = heap; tasks = [] };
  metrics = initial;
  scheduler_running = false;
  next_task_id = 1;
  task_promises = [];
  promise_of = λ _. none;
  callback_of = λ _. plain none;
  allocated = 0;
}

abbrev pub run_user : {R : Type 0} → UserCallback R → R → Option Exception
run_user none result = none
run_user (some callback) result = callback result

abbrev pub shutdown_unless : Bool → Option Exception
shutdown_unless done = if done then none else some pool_shutdown

unfoldable pub add_dependencies : ℕ → List ℕ → Graph → Graph
add_dependencies task_id [] g = g
add_dependencies task_id (d ∷ ds) g = add_dependencies task_id ds (add_dependency task_id d g)

module _ {S R : Type 0} where
  -- A task is changed in place.
  abbrev pub on_task : (Task → Task) → ℕ → Executor S R → Executor S R
  on_task f p x = record x { graph = record (x.graph) { heap = modify f p x.graph.heap } }

  -- `promise->set_value` and `promise->set_exception`, and the exception that they throw.
  unfoldable pub settle : ℕ → Outcome R → Executor S R → Executor S R × Option Exception
  settle promise outcome x = elim (x.promise_of promise) [
    | none ↦ (record x { promise_of = assign promise (some outcome) x.promise_of }, none)
    | some _ ↦ (x, some promise_already_satisfied)
  ]

  unfoldable pub register_promise : ℕ → ℕ → Executor S R → Executor S R
  register_promise id promise x = record x { task_promises = insert id promise x.task_promises }

  -- `fulfill_promise` and `fail_promise`, by the outcome.
  unfoldable pub settle_registered : ℕ → Outcome R → Executor S R → Executor S R × Option Exception
  settle_registered id outcome x = elim (lookup id x.task_promises) [
    | none ↦ (x, none)
    | some promise ↦ settle promise outcome (record x { task_promises = erase id x.task_promises })
  ]

  unfoldable pub run_callback : Callback R → R → Executor S R → Executor S R × Option Exception
  run_callback (plain user) result x = (x, run_user user result)
  run_callback (fulfilling promise user) result x = elim (run_user user result) [
    | some e ↦ (x, some e)
    | none ↦ settle promise (returns result) x
  ]

  -- `graph_->notify_task_completed(id)`, and `clear_enqueued_flag` of the task.
  unfoldable pub finish : ℕ → ℕ → Executor S R → Executor S R
  finish id p x =
      on_task clear_enqueued_flag p (record x { graph = notify_task_completed id x.graph })

  -- The callback that `submit_internal` sets. The task lives, since the graph holds it.
  unfoldable pub invoke_callback : ℕ → R → Executor S R → Executor S R × Option Exception
  invoke_callback p result x =
      let id = (x.graph.heap p).id in
      let (x', failed_user) = run_callback (x.callback_of p) result x in
      let (x'', failed_promise) = settle_registered id (returns result) x' in
      elim failed_user [
        | some e ↦ (x', some e)
        | none ↦ elim failed_promise [ some e ↦ (x'', some e) | none ↦ (finish id p x'', none) ]
      ]

  -- The hook `on_start`, at time `now`.
  unfoldable pub on_start : ℕ → ℕ → Executor S R → Executor S R
  on_start now p x =
      let wait = (now - (x.graph.heap p).created_time) / 1000 in
      let m = record_start [] x.metrics in
      record x { metrics = if ltb 0 wait then record_queue_wait wait m else m }

  unfoldable pub on_success : ℕ → R → Executor S R → Executor S R × Option Exception
  on_success p result x = invoke_callback p result (record x {
    metrics = record_completion [] [] (pos (execution_time (x.graph.heap p))) x.metrics;
  })

  -- `task->try_mark_enqueued()`, and if it answers true, `thread_pool_->submit`; false is its
  -- exception.
  unfoldable pub enqueue : WorkPool S → ℕ → Executor S R → Option (Executor S R × Bool)
  enqueue work p x =
      let (t, marked) = try_mark_enqueued (x.graph.heap p) in
      let x' = on_task (λ _. t) p x in
      if marked
      then elim (work.submit x.pool p t.options.priority) [
        | none ↦ none
        | some (pool, done) ↦ some (record x' { pool = pool }, done)
      ]
      else some (x, true)

  -- The end of a task that will not run again.
  unfoldable pub give_up : ℕ → Exception → Executor S R → Executor S R × Option Exception
  give_up p e x =
      let id = (x.graph.heap p).id in
      let (x', failed_promise) = settle_registered id (throws e) x in
      elim failed_promise [ some e' ↦ (x', some e') | none ↦ (finish id p x', none) ]

  unfoldable pub retry : WorkPool S → ℕ → Executor S R → Option (Executor S R × Option Exception)
  retry work p x = elim (enqueue work p x) [
    | none ↦ none
    | some (x', done) ↦ some (x', shutdown_unless done)
  ]

  unfoldable pub handle_failure :
      WorkPool S → ℕ → Exception → Executor S R → Option (Executor S R × Option Exception)
  handle_failure work p e x =
      let x' = on_task reset_for_retry p (record x { metrics = record_retry x.metrics }) in
      if can_retry (x.graph.heap p) then retry work p x' else some (give_up p e x)

  unfoldable pub on_failure :
      WorkPool S → ℕ → Exception → Executor S R → Option (Executor S R × Option Exception)
  on_failure work p e x = handle_failure work p e (record x { metrics = record_failure x.metrics })

  -- What a worker does with a task that it found, at time `now`; `outcome` is what `func_` does. An
  -- exception that is left ends the program.
  unfoldable pub run_task :
      WorkPool S
      → ℕ
      → Readings
      → Outcome R
      → ℕ
      → Executor S R
      → Option (Executor S R × Option Exception)
  run_task work now readings outcome p x =
      let started = on_start now p x in
      let (t, result) = execute readings outcome (started.graph.heap p) in
      let ran = on_task (λ _. t) p started in
      elim result [
        | throws e ↦ on_failure work p e ran
        | returns a ↦
            let (x', thrown) = on_success p a ran in
            elim thrown [ none ↦ some (x', none) | some e ↦ on_failure work p e x' ]
      ]

  -- `submit_internal` as far as the test whether the task is ready.
  unfoldable pub enter :
      ℕ → String → TaskOptions → List ℕ → Callback R → Option ℕ → Executor S R → Executor S R
  enter now name options dependencies callback promise x =
      let id = x.next_task_id in
      let p = x.allocated in
      let heap = assign p (create id name options now) x.graph.heap in
      let registered : Executor S R = elim promise [
        | none ↦ x
        | some a ↦ register_promise id a x
      ] in
      record registered {
        next_task_id = add64 id 1;
        allocated = p + 1;
        metrics = record_submission x.metrics;
        callback_of = assign p callback x.callback_of;
        graph = add_dependencies id dependencies (add_task p (record (x.graph) { heap = heap }));
      }

  -- `submit_internal`, with the promise of `submit_async` if there is one.
  unfoldable pub submit_internal :
      WorkPool S
      → ℕ
      → String
      → TaskOptions
      → List ℕ
      → Callback R
      → Option ℕ
      → Executor S R
      → Option (Executor S R × Outcome ℕ)
  submit_internal work now name options dependencies callback promise x =
      let entered = enter now name options dependencies callback promise x in
      if is_ready (entered.graph.heap x.allocated)
      then elim (enqueue work x.allocated entered) [
        | none ↦ none
        | some (x', done) ↦ some (x', if done then returns x.next_task_id else throws pool_shutdown)
      ]
      else some (entered, returns x.next_task_id)

  unfoldable pub submit_with_dependencies :
      WorkPool S
      → ℕ
      → String
      → TaskOptions
      → List ℕ
      → UserCallback R
      → Executor S R
      → Option (Executor S R × Outcome ℕ)
  submit_with_dependencies work now name options dependencies user x =
      submit_internal work now name options dependencies (plain user) none x

  unfoldable pub submit :
      WorkPool S
      → ℕ
      → String
      → TaskOptions
      → UserCallback R
      → Executor S R
      → Option (Executor S R × Outcome ℕ)
  submit work now name options user x = submit_internal work now name options [] (plain user) none x

  -- `submit_async`, where `promise` is the address of the new promise.
  unfoldable pub submit_async :
      WorkPool S
      → ℕ
      → String
      → TaskOptions
      → List ℕ
      → UserCallback R
      → ℕ
      → Executor S R
      → Option (Executor S R × Outcome ℕ)
  submit_async work now name options dependencies user promise x =
      submit_internal work now name options dependencies (fulfilling promise user) (some promise) x

  unfoldable pub get_task_status : ℕ → Executor S R → TaskStatus
  get_task_status id x = elim (get_task id x.graph) [
    | none ↦ failed
    | some p ↦ (x.graph.heap p).status
  ]

  -- `cancel`; the exception is the one of `fail_promise`.
  unfoldable pub cancel : ℕ → Executor S R → Executor S R × Outcome Bool
  cancel id x = elim (get_task id x.graph) [
    | none ↦ (x, returns false)
    | some p ↦
        let (t, done) = Task.cancel (x.graph.heap p) in
        let cancelled = on_task (λ _. t) p x in
        let (x', failed_promise) = settle_registered id (throws cancelled_before) cancelled in
        let counted = record x' { metrics = record_cancellation x'.metrics } in
        if done
        then elim failed_promise [
          | some e ↦ (x', throws e)
          | none ↦ (finish id p counted, returns true)
        ]
        else (x, returns false)
  ]

  -- The loop of one round of `scheduler_loop`.
  unfoldable pub enqueue_each : WorkPool S → List ℕ → Executor S R → Option (Executor S R × Bool)
  enqueue_each work [] x = some (x, true)
  enqueue_each work (p ∷ ps) x = elim (enqueue work p x) [
    | none ↦ none
    | some (x', done) ↦ if done then enqueue_each work ps x' else some (x', false)
  ]

  unfoldable pub tick : WorkPool S → Executor S R → Option (Executor S R × Bool)
  tick work x =
      if x.scheduler_running then enqueue_each work (get_ready_tasks x.graph) x else some (x, true)

  unfoldable pub start : Executor S R → Executor S R
  start x = record x { scheduler_running = true }

  -- `stop`, without the joins.
  unfoldable pub stop : WorkPool S → Executor S R → Executor S R
  stop work x = record x { scheduler_running = false; pool = work.stop x.pool }
