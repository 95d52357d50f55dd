-- ===== src/Monitor.antt =====
-- include/task_engine/performance_monitor.hpp: PerformanceMonitor, eleven 64-bit counters.
mod Tests
pub mod Extrema
pub mod Accounts
pub mod Snapshot
use nexus_task.Prelude.{
  ℕ, ◌+◌, ◌-◌, ◌≤◌, ◌<◌, Bool, true, false, List, [], ◌∷◌, ltb, leb, if◌then◌else◌, word, add64,
  sub64, ℤ, pos, negsuc, to_word, is_positive,
}

pub record Metrics : Type 0 where
  pub tasks_submitted : ℕ
  pub tasks_completed : ℕ
  pub tasks_failed : ℕ
  pub tasks_retried : ℕ
  pub tasks_cancelled : ℕ
  pub total_execution_time_us : ℕ
  pub max_execution_time_us : ℕ
  pub min_execution_time_us : ℕ
  pub queue_wait_time_us : ℕ
  pub inflight_tasks : ℕ
  pub peak_inflight : ℕ

-- `UINT64_MAX`
abbrev pub max_word : ℕ
max_word = word - 1

abbrev pub initial : Metrics
initial = record {
  tasks_submitted = 0;
  tasks_completed = 0;
  tasks_failed = 0;
  tasks_retried = 0;
  tasks_cancelled = 0;
  total_execution_time_us = 0;
  max_execution_time_us = 0;
  min_execution_time_us = max_word;
  queue_wait_time_us = 0;
  inflight_tasks = 0;
  peak_inflight = 0;
}

-- `while (value > current) if (compare_exchange_weak(current, value)) break;` and what it leaves.
-- `seen` lists the values that the failed exchanges find, which other threads wrote.
pub raise_to : List ℕ → ℕ → ℕ → ℕ
raise_to [] value current = if ltb current value then value else current
raise_to (found ∷ seen) value current =
    let again = raise_to seen value found in if ltb current value then again else current

pub lower_to : List ℕ → ℕ → ℕ → ℕ
lower_to [] value current = if ltb value current then value else current
lower_to (found ∷ seen) value current =
    let again = lower_to seen value found in if ltb value current then again else current

unfoldable pub record_submission : Metrics → Metrics
record_submission m = record m { tasks_submitted = add64 m.tasks_submitted 1 }

unfoldable pub record_start : List ℕ → Metrics → Metrics
unfolding raise_to
record_start seen m =
    let inflight = add64 m.inflight_tasks 1 in
    record m { inflight_tasks = inflight; peak_inflight = raise_to seen inflight m.peak_inflight }

pub update_extrema : List ℕ → List ℕ → ℕ → Metrics → Metrics
unfolding raise_to lower_to
update_extrema seen_max seen_min exec_time_us m = record m {
  max_execution_time_us = raise_to seen_max exec_time_us m.max_execution_time_us;
  min_execution_time_us = lower_to seen_min exec_time_us m.min_execution_time_us;
}

unfoldable pub record_completion : List ℕ → List ℕ → ℤ → Metrics → Metrics
unfolding update_extrema
record_completion seen_max seen_min execution_time_us m =
    update_extrema seen_max seen_min (to_word execution_time_us) (record m {
      total_execution_time_us =
          if is_positive execution_time_us
          then add64 m.total_execution_time_us (to_word execution_time_us)
          else m.total_execution_time_us;
      tasks_completed = add64 m.tasks_completed 1;
      inflight_tasks = sub64 m.inflight_tasks 1;
    })

unfoldable pub record_failure : Metrics → Metrics
record_failure m = record m {
  tasks_failed = add64 m.tasks_failed 1;
  inflight_tasks = sub64 m.inflight_tasks 1;
}

unfoldable pub record_retry : Metrics → Metrics
record_retry m = record m { tasks_retried = add64 m.tasks_retried 1 }

unfoldable pub record_cancellation : Metrics → Metrics
record_cancellation m = record m { tasks_cancelled = add64 m.tasks_cancelled 1 }

unfoldable pub record_queue_wait : ℕ → Metrics → Metrics
record_queue_wait wait_time_us m = record m {
  queue_wait_time_us = add64 m.queue_wait_time_us wait_time_us;
}

-- `reset`; the start of the measurement is not modelled, since only the throughput reads it.
unfoldable pub reset : Metrics → Metrics
reset m = initial
