-- ===== src/Batch.antt =====
-- include/task_engine/task_batch.hpp: TaskBatch, over the executor. `wait` is the executor's
-- `wait_for_completion`.
mod Tests
pub mod Cancel
use nexus_task.Prelude.{
  ℕ, Bool, Option, none, some, List, [], ◌∷◌, ◌++◌, map, if◌then◌else◌, add64, String,
}
use nexus_task.Task.{TaskStatus, TaskOptions, Outcome, returns, throws}
use nexus_task.WorkPool.{WorkPool}
use nexus_task.Executor
use nexus_task.Executor.{Executor, submit, submit_with_dependencies, get_task_status}

pub record TaskBatch : Type 0 where
  pub task_ids : List ℕ

module _ {S R : Type 0} where
  -- What both ways of adding do with the answer of the executor.
  abbrev pub note :
      TaskBatch → Option (Executor S R × Outcome ℕ) → Option (TaskBatch × Executor S R × Outcome ℕ)
  note b none = none
  note b (some (x, returns id)) =
      some (record b { task_ids = b.task_ids ++ id ∷ [] }, x, returns id)
  note b (some (x, throws e)) = some (b, x, throws e)

  unfoldable pub add :
      WorkPool S
      → ℕ
      → String
      → TaskOptions
      → TaskBatch
      → Executor S R
      → Option (TaskBatch × Executor S R × Outcome ℕ)
  add work now name options b x = note b (submit work now name options none x)

  unfoldable pub add_with_dependencies :
      WorkPool S
      → ℕ
      → List ℕ
      → String
      → TaskOptions
      → TaskBatch
      → Executor S R
      → Option (TaskBatch × Executor S R × Outcome ℕ)
  add_with_dependencies work now dependencies name options b x =
      note b (submit_with_dependencies work now name options dependencies none x)

  unfoldable pub get_statuses : TaskBatch → Executor S R → List TaskStatus
  get_statuses b x = map (λ id. get_task_status id x) b.task_ids

  -- The loop of `cancel_all`; an exception of `cancel` ends it.
  unfoldable pub cancel_each : List ℕ → ℕ → Executor S R → Executor S R × Outcome ℕ
  cancel_each [] cancelled x = (x, returns cancelled)
  cancel_each (id ∷ ids) cancelled x =
      let (x', reply) = Executor.cancel id x in
      elim reply [
        | throws e ↦ (x', throws e)
        | returns done ↦ cancel_each ids (if done then add64 cancelled 1 else cancelled) x'
      ]

  unfoldable pub cancel_all : TaskBatch → Executor S R → Executor S R × Outcome ℕ
  cancel_all b x = cancel_each b.task_ids 0 x
