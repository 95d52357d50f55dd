-- ===== src/Executor/Steps.antt =====
-- TaskExecutor as a state machine: the steps that clients, workers and the scheduler take, in any
-- order.
use nexus_task.Prelude.{ℕ, ◌≡◌, List, Option, some, Bool, String}
use nexus_task.Task.{TaskOptions, Exception, Outcome, Readings}
use nexus_task.WorkPool.{WorkPool}
use nexus_task.Executor.{Executor, Callback, run_task, submit_internal, cancel, tick, start, stop}

-- One step. A step that is interrupted by an exception counts with what it has done so far.
pub data Step {S R : Type 0} (work : WorkPool S) : Executor S R → Executor S R → Type 0 where
  submits :
      {x x' : Executor S R} (now : ℕ) (name : String) (options : TaskOptions)
      (dependencies : List ℕ) (callback : Callback R) (promise : Option ℕ) (reply : Outcome ℕ)
      → submit_internal work now name options dependencies callback promise x ≡ some (x', reply)
      → Step work x x'
  runs :
      {x x' : Executor S R} (now : ℕ) (readings : Readings) (outcome : Outcome R) (p : ℕ)
      (left : Option Exception)
      → run_task work now readings outcome p x ≡ some (x', left)
      → Step work x x'
  cancels : {x : Executor S R} (id : ℕ) → Step work x (cancel id x).0
  ticks : {x x' : Executor S R} (done : Bool) → tick work x ≡ some (x', done) → Step work x x'
  starts : {x : Executor S R} → Step work x (start x)
  stops : {x : Executor S R} → Step work x (stop work x)

-- Any number of steps.
pub data Steps {S R : Type 0} (work : WorkPool S) : Executor S R → Executor S R → Type 0 where
  here : {x : Executor S R} → Steps work x x
  after : {x x' x'' : Executor S R} → Step work x x' → Steps work x' x'' → Steps work x x''
