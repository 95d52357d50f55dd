-- ===== src/Group.antt =====
-- include/task_engine/task_group.hpp: TaskGroup, over the executor. The name of the group is left
-- out, since it may be made of an address.
mod Tests
pub mod Stats
use nexus_task.Prelude.{
  ℕ, ◌+◌, Bool, true, false, Option, none, some, List, [], ◌∷◌, ◌++◌, if◌then◌else◌, ◌=ℕ◌, length,
  add64, String,
}
use nexus_task.Task.{
  TaskStatus, pending, ready, running, completed, failed, cancelled, TaskOptions, Outcome, returns,
  throws,
}
use nexus_task.WorkPool.{WorkPool}
use nexus_task.Executor
use nexus_task.Executor.{Executor, submit_with_dependencies, get_task_status}

pub record TaskGroup : Type 0 where
  pub task_ids : List ℕ

pub record GroupStats : Type 0 where
  pub total_tasks : ℕ
  pub completed_tasks : ℕ
  pub failed_tasks : ℕ
  pub running_tasks : ℕ
  pub pending_tasks : ℕ
  pub cancelled_tasks : ℕ

-- The `switch` of `get_stats`.
unfoldable pub count_status : TaskStatus → GroupStats → GroupStats
count_status completed s = record s { completed_tasks = add64 s.completed_tasks 1 }
count_status failed s = record s { failed_tasks = add64 s.failed_tasks 1 }
count_status running s = record s { running_tasks = add64 s.running_tasks 1 }
count_status pending s = record s { pending_tasks = add64 s.pending_tasks 1 }
count_status ready s = record s { pending_tasks = add64 s.pending_tasks 1 }
count_status cancelled s = record s { cancelled_tasks = add64 s.cancelled_tasks 1 }

module _ {S R : Type 0} where
  -- `add_with_dependencies`, and with no dependency `add`.
  unfoldable pub add_with_dependencies :
      WorkPool S
      → ℕ
      → String
      → TaskOptions
      → List ℕ
      → TaskGroup
      → Executor S R
      → Option (TaskGroup × Executor S R × Outcome ℕ)
  add_with_dependencies work now name options dependencies g x =
      elim (submit_with_dependencies work now name options dependencies none x) [
        | none ↦ none
        | some (x', reply) ↦ elim reply [
          | returns id ↦ some (record g { task_ids = g.task_ids ++ id ∷ [] }, x', returns id)
          | throws e ↦ some (g, x', throws e)
        ]
      ]

  -- The loop of `cancel_all`, with the number of tasks cancelled; an exception ends it.
  unfoldable pub cancel_each : List ℕ → ℕ → Executor S R → Executor S R × Outcome ℕ
  cancel_each [] count x = (x, returns count)
  cancel_each (id ∷ ids) count x =
      let (x', reply) = Executor.cancel id x in
      elim reply [
        | throws e ↦ (x', throws e)
        | returns done ↦ cancel_each ids (if done then add64 count 1 else count) x'
      ]

  unfoldable pub cancel_all : TaskGroup → Executor S R → Executor S R × Outcome ℕ
  cancel_all g x = cancel_each g.task_ids 0 x

  -- The loop of `get_stats`.
  unfoldable pub count_each : List ℕ → Executor S R → GroupStats → GroupStats
  count_each [] x s = s
  count_each (id ∷ ids) x s = count_each ids x (count_status (get_task_status id x) s)

  unfoldable pub get_stats : TaskGroup → Executor S R → GroupStats
  get_stats g x = count_each g.task_ids x (record {
    total_tasks = length g.task_ids;
    completed_tasks = 0;
    failed_tasks = 0;
    running_tasks = 0;
    pending_tasks = 0;
    cancelled_tasks = 0;
  })

  unfoldable pub all_completed : TaskGroup → Executor S R → Bool
  all_completed g x =
      let s = get_stats g x in
      add64 (add64 s.completed_tasks s.failed_tasks) s.cancelled_tasks =ℕ s.total_tasks

unfoldable pub clear : TaskGroup → TaskGroup
clear g = record g { task_ids = [] }
