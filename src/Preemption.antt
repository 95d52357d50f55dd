-- ===== src/Preemption.antt =====
-- include/task_engine/task_preemptor.hpp: TaskPreemptor. The executor that it refers to is not used
-- by its code.
mod Tests
pub mod Requests
use nexus_task.Prelude.{
  ℕ, Bool, true, false, List, [], ◌∷◌, ltb, if◌then◌else◌, insert, erase, nat_eq, length,
}
use nexus_task.Task.{TaskPriority, low, normal, high, critical}

pub record Preemptor : Type 0 where
  pub enabled : Bool
  pub preemption_requests : List (ℕ × TaskPriority)

abbrev pub new_preemptor : Preemptor
new_preemptor = record { enabled = true; preemption_requests = [] }

unfoldable pub set_enabled : Bool → Preemptor → Preemptor
set_enabled enabled r = record r { enabled = enabled }

unfoldable pub is_enabled : Preemptor → Bool
is_enabled r = r.enabled

-- `priority < min_priority`, on the values of the enumeration.
abbrev pub rank : TaskPriority → ℕ
rank low = 0
rank normal = 1
rank high = 2
rank critical = 3

unfoldable pub preempt_for : ℕ → TaskPriority → Preemptor → Preemptor × ℕ
unfolding is_enabled
preempt_for task min_priority r =
    if is_enabled r
    then (record r { preemption_requests = insert task min_priority r.preemption_requests }, 0)
    else (r, 0)

unfoldable pub cancel_preemption : ℕ → Preemptor → Preemptor
cancel_preemption task r = record r { preemption_requests = erase task r.preemption_requests }

-- The loop of `should_preempt`.
unfoldable pub any_above : TaskPriority → List (ℕ × TaskPriority) → Bool
any_above priority [] = false
any_above priority ((task, min_priority) ∷ rest) =
    if ltb (rank priority) (rank min_priority) then true else any_above priority rest

unfoldable pub should_preempt : ℕ → TaskPriority → Preemptor → Bool
unfolding any_above is_enabled
should_preempt task priority r =
    if is_enabled r then any_above priority r.preemption_requests else false

unfoldable pub active_preemptions : Preemptor → ℕ
active_preemptions r = length r.preemption_requests
