-- ===== src/Health/Verdict.antt =====
-- When a system counts as healthy.
use nexus_task.Prelude.{ℕ, ◌≤◌, ◌≡◌, ◌↔◌, refl, arith, true, false, none, some}
use nexus_task.Monitor.{Metrics}
use nexus_task.Monitor.Snapshot.{Double, get_metrics, average_execution_time, throughput_per_second}
use nexus_task.Health.{
  HealthStatus, HealthMonitor, judge, check, get_last_status, is_healthy, set_thresholds, unchecked,
}

module _ {double : Double} where
  open double use {D, less}

  judge_lem :
      (h : HealthMonitor double) (s : HealthStatus double)
      → ((judge h s).healthy ≡ true) ↔ (
          (s.active_tasks ≤ h.max_inflight_tasks)
          × (s.pending_tasks ≤ h.max_pending_tasks)
          × (less s.throughput h.min_throughput ≡ false))
  unfolding judge
  judge_lem h s = ground arith

  -- With a monitor, a check answers healthy exactly when the tasks in flight and the tasks pending
  -- are within the thresholds that were set last and the throughput is not below its threshold, and
  -- the answer is the last status from then on; without one it answers that the system is not
  -- healthy, and the last status stays.
  pub check_lem :
      (now start_time measured pending max_inflight max_pending : ℕ) (min_throughput : D)
      (m : Metrics) (h : HealthMonitor double)
      → let h' = set_thresholds max_inflight max_pending min_throughput h in
        (((is_healthy now (some (m, start_time, measured)) pending h').1 ≡ true) ↔ (
          (m.inflight_tasks ≤ max_inflight)
          × (pending ≤ max_pending)
          × (less (throughput_per_second double measured start_time m) min_throughput ≡ false)))
        × (get_last_status (check now (some (m, start_time, measured)) pending h').0
            ≡ (check now (some (m, start_time, measured)) pending h').1)
        × ((is_healthy now none pending h').1 ≡ false)
        × (get_last_status (check now none pending h').0 ≡ get_last_status h)
  unfolding check get_metrics is_healthy get_last_status set_thresholds
  check_lem now start_time measured pending max_inflight max_pending min_throughput m h =
      let h' = set_thresholds max_inflight max_pending min_throughput h in
      let seen = record (unchecked {double = double} now) {
        active_tasks = m.inflight_tasks;
        pending_tasks = pending;
        throughput = throughput_per_second double measured start_time m;
        avg_latency_us = average_execution_time double m;
      } in
      (judge_lem h' seen, refl, refl, refl)
