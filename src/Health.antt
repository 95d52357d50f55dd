-- ===== src/Health.antt =====
-- include/task_engine/health_monitor.hpp: HealthMonitor. `last_check_`, which no code reads, is left out.
mod Tests
pub mod Verdict
use nexus_task.Prelude.{
  ℕ, Bool, true, false, Option, none, some, List, [], ◌++◌, ltb, if◌then◌else◌,
}
use nexus_task.Text.{Bytes, codes, show_number}
use nexus_task.Monitor.{Metrics}
use nexus_task.Monitor.Snapshot.{Double, get_metrics, average_execution_time, throughput_per_second}

module _ (double : Double) where
  open double use {D}

  pub record HealthStatus : Type 0 where
    pub healthy : Bool
    pub status_message : Bytes
    pub last_check : ℕ
    pub active_tasks : ℕ
    pub pending_tasks : ℕ
    pub throughput : D
    pub avg_latency_us : D

  pub record HealthMonitor : Type 0 where
    pub last_status : HealthStatus
    pub max_inflight_tasks : ℕ
    pub max_pending_tasks : ℕ
    pub min_throughput : D

module _ {double : Double} where
  open double use {D, zero, one, less, show}

  abbrev pub unchecked : ℕ → HealthStatus double
  unchecked now = record {
    healthy = true;
    status_message = [];
    last_check = now;
    active_tasks = 0;
    pending_tasks = 0;
    throughput = zero;
    avg_latency_us = zero;
  }

  -- A new monitor; a time that is not set is 0.
  abbrev pub new_monitor : HealthMonitor double
  new_monitor = record {
    last_status = unchecked 0;
    max_inflight_tasks = 1000;
    max_pending_tasks = 10000;
    min_throughput = one;
  }

  -- The health criteria.
  unfoldable pub judge : HealthMonitor double → HealthStatus double → HealthStatus double
  judge h s =
      if ltb h.max_inflight_tasks s.active_tasks
      then record s {
        healthy = false;
        status_message = codes "Too many inflight tasks: " ++ show_number s.active_tasks;
      }
      else if ltb h.max_pending_tasks s.pending_tasks
      then record s {
        healthy = false;
        status_message = codes "Too many pending tasks: " ++ show_number s.pending_tasks;
      }
      else if less s.throughput h.min_throughput
      then record s {
        healthy = false;
        status_message = codes "Throughput too low: " ++ show s.throughput;
      }
      else record s { healthy = true; status_message = codes "OK" }

  -- `check` at time `now`, with the counters of the executor's monitor, the time when it was made and
  -- the time when its throughput is read, if there is one, and the pending tasks of the executor.
  unfoldable pub check :
      ℕ
      → Option (Metrics × ℕ × ℕ)
      → ℕ
      → HealthMonitor double
      → HealthMonitor double × HealthStatus double
  unfolding judge get_metrics
  check now none pending h = (
    h,
    record (unchecked now) { healthy = false; status_message = codes "Monitor not available" },
  )
  check now (some (m, start_time, measured)) pending h =
      let status = judge h (record (unchecked now) {
        active_tasks = (get_metrics m).inflight_tasks;
        pending_tasks = pending;
        throughput = throughput_per_second double measured start_time m;
        avg_latency_us = average_execution_time double m;
      }) in
      (record h { last_status = status }, status)

  unfoldable pub get_last_status : HealthMonitor double → HealthStatus double
  get_last_status h = h.last_status

  unfoldable pub set_thresholds : ℕ → ℕ → D → HealthMonitor double → HealthMonitor double
  set_thresholds max_inflight max_pending min_throughput h = record h {
    max_inflight_tasks = max_inflight;
    max_pending_tasks = max_pending;
    min_throughput = min_throughput;
  }

  unfoldable pub is_healthy :
      ℕ → Option (Metrics × ℕ × ℕ) → ℕ → HealthMonitor double → HealthMonitor double × Bool
  is_healthy now r pending h = let (h', s) = check now r pending h in (h', s.healthy)
