-- ===== src/WorkPool.antt =====
-- What the executor asks of its thread pool, and what it may rely on.
use nexus_task.Prelude.{ℕ, ◌+◌, ◌≡◌, Bool, Option, some, ◌=ℕ◌, if◌then◌else◌}
use nexus_task.Task.{TaskPriority}

-- `submit` is `none` if it does not return, and answers false if it throws. `held` counts a task in
-- the queues.
pub record WorkPool (S : Type 0) : Type 0 where
  pub submit : S → ℕ → TaskPriority → Option (S × Bool)
  pub pending : S → ℕ
  pub stop : S → S
  pub held : S → ℕ → ℕ
  pub submit_held :
      (s : S) (t : ℕ) (p : TaskPriority) (s' : S) (done : Bool)
      → submit s t p ≡ some (s', done)
      → (a : ℕ) → held s' a ≡ held s a + (if done then (if t =ℕ a then 1 else 0) else 0)
