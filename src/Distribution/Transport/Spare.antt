-- ===== src/Distribution/Transport/Spare.antt =====
-- The executors of a fleet under submissions.
use nexus_task.Prelude.{ℕ, ◌+◌, ◌<◌, Option, none, some, word}
use nexus_task.WorkPool.{WorkPool}
use nexus_task.Executor
use nexus_task.Executor.{Executor, assign, submit_internal}
use nexus_task.Executor.Sound.{IsSound}
use nexus_task.Distribution.Transport.{Fleet}

module _ {S R : Type 0} where
  -- A sound executor with room for so many ids.
  abbrev pub Roomy : ℕ → Executor S R → Type 0
  Roomy n x = IsSound x × (x.next_task_id + n < word)

  abbrev pub Spare : ℕ → Fleet S R → Type 0
  Spare n f = Roomy n f.local_executor × ((e : ℕ) → Roomy n (f.executor_at e))

  abbrev pub After : {B : Type 0} → ℕ → Option (Fleet S R × B) → Type 0
  After n none = Unit
  After n (some (f, reply)) = Spare n f
