-- ===== src/Monitor/Snapshot.antt =====
-- include/task_engine/performance_monitor.hpp: what a reader of PerformanceMonitor gets. A double is
-- an element of `D`, with what the code uses of it.
use nexus_task.Prelude.{ℕ, ◌-◌, Bool, ◌=ℕ◌, if◌then◌else◌}
use nexus_task.Text.{Bytes}
use nexus_task.Monitor.{Metrics, max_word}

pub record MetricsSnapshot : Type 0 where
  pub tasks_submitted : ℕ
  pub tasks_completed : ℕ
  pub tasks_failed : ℕ
  pub tasks_retried : ℕ
  pub tasks_cancelled : ℕ
  pub total_execution_time_us : ℕ
  pub max_execution_time_us : ℕ
  pub min_execution_time_us : ℕ
  pub total_queue_wait_time_us : ℕ
  pub inflight_tasks : ℕ
  pub peak_inflight : ℕ

-- `MetricsSnapshot{}`
abbrev pub no_metrics : MetricsSnapshot
no_metrics = record {
  tasks_submitted = 0;
  tasks_completed = 0;
  tasks_failed = 0;
  tasks_retried = 0;
  tasks_cancelled = 0;
  total_execution_time_us = 0;
  max_execution_time_us = 0;
  min_execution_time_us = max_word;
  total_queue_wait_time_us = 0;
  inflight_tasks = 0;
  peak_inflight = 0;
}

unfoldable pub get_metrics : Metrics → MetricsSnapshot
get_metrics m = record {
  tasks_submitted = m.tasks_submitted;
  tasks_completed = m.tasks_completed;
  tasks_failed = m.tasks_failed;
  tasks_retried = m.tasks_retried;
  tasks_cancelled = m.tasks_cancelled;
  total_execution_time_us = m.total_execution_time_us;
  max_execution_time_us = m.max_execution_time_us;
  min_execution_time_us = m.min_execution_time_us;
  total_queue_wait_time_us = m.queue_wait_time_us;
  inflight_tasks = m.inflight_tasks;
  peak_inflight = m.peak_inflight;
}

-- `double`, with the conversion of a 64-bit number, that of nanoseconds to seconds, its comparisons,
-- its division and `std::to_string`.
pub record Double : Type 1 where
  pub D : Type 0
  pub zero : D
  pub one : D
  pub of_word : ℕ → D
  pub seconds : ℕ → D
  pub less : D → D → Bool
  pub at_most : D → D → Bool
  pub quotient : D → D → D
  pub show : D → Bytes

module _ (double : Double) where
  open double use {D, zero, of_word, seconds, at_most, quotient}

  unfoldable pub average_execution_time : Metrics → D
  average_execution_time m =
      if m.tasks_completed =ℕ 0
      then zero
      else quotient (of_word m.total_execution_time_us) (of_word m.tasks_completed)

  unfoldable pub average_queue_wait_time : Metrics → D
  average_queue_wait_time m =
      if m.tasks_submitted =ℕ 0
      then zero
      else quotient (of_word m.queue_wait_time_us) (of_word m.tasks_submitted)

  -- At time `now`, for a monitor made at time `start_time`.
  unfoldable pub throughput_per_second : ℕ → ℕ → Metrics → D
  throughput_per_second now start_time m =
      let elapsed = seconds (now - start_time) in
      if at_most elapsed zero then zero else quotient (of_word m.tasks_completed) elapsed
