-- ===== src/Resources/Tests.antt =====
-- ResourceMonitor: the theorems at one task.
use nexus_task.Prelude.{ℕ, ◌≡◌, Bool, true, false, [], ltb}
use nexus_task.Resources.{
  ResourceLimits, start_monitoring, stop_monitoring, update_usage, check_limits,
}
use nexus_task.Resources.Limits.{check_limits_lem}

-- A whole number of percent stands for a `double`.
abbrev over : ℕ → ℕ → Bool
over a b = ltb b a

abbrev limits : ResourceLimits
limits = record { max_execution_time = 0; max_memory_bytes = 100; max_cpu_percent = 50 }

check_limits_lem_example :
    ((check_limits over 5000000 1 (update_usage 1 200 10 (start_monitoring 0 0 1 limits []))).1
      ≡ true)
    × ((check_limits over 5000000 1
          (stop_monitoring 1 (update_usage 1 200 10 (start_monitoring 0 0 1 limits [])))).1
        ≡ false)
check_limits_lem_example = check_limits_lem over 0 0 5000000 1 200 10 limits []
