-- ===== src/Resources.antt =====
-- include/task_engine/resource_monitor.hpp: ResourceMonitor. A limit or a duration is a number of
-- milliseconds, a time one of nanoseconds. A `double` is an element of `D`, `over` its comparison
-- with a `size_t`, and `zero_percent` is `0.0`.
mod Tests
pub mod Limits
use nexus_task.Prelude.{
  ℕ, ◌-◌, ◌/◌, Bool, true, false, ◌&&◌, Option, none, some, List, [], ◌∷◌, if◌then◌else◌, ltb,
  lookup, insert, erase, nat_eq,
}

pub record ResourceLimits : Type 0 where
  pub max_execution_time : ℕ
  pub max_memory_bytes : ℕ
  pub max_cpu_percent : ℕ

unfoldable pub has_time_limit : ResourceLimits → Bool
has_time_limit l = ltb 0 l.max_execution_time

unfoldable pub has_memory_limit : ResourceLimits → Bool
has_memory_limit l = ltb 0 l.max_memory_bytes

unfoldable pub has_cpu_limit : ResourceLimits → Bool
has_cpu_limit l = ltb 0 l.max_cpu_percent

pub record ResourceUsage (D : Type 0) : Type 0 where
  pub execution_time : ℕ
  pub memory_bytes : ℕ
  pub cpu_percent : D

pub record TaskResourceInfo (D : Type 0) : Type 0 where
  pub limits : ResourceLimits
  pub usage : ResourceUsage D
  pub start_time : ℕ
  pub monitoring : Bool

abbrev pub ResourceMonitor : Type 0 → Type 0
ResourceMonitor D = List (ℕ × TaskResourceInfo D)

abbrev pub elapsed_ms : ℕ → ℕ → ℕ
elapsed_ms start now = (now - start) / 1000000

-- `get_monitored_tasks`
unfoldable pub get_monitored_tasks : {D : Type 0} → ResourceMonitor D → List ℕ
get_monitored_tasks [] = []
get_monitored_tasks ((id, info) ∷ rest) =
    let ids = get_monitored_tasks rest in if info.monitoring then id ∷ ids else ids

unfoldable pub stop_monitoring : {D : Type 0} → ℕ → ResourceMonitor D → ResourceMonitor D
stop_monitoring task_id m = erase task_id m

unfoldable pub update_usage : {D : Type 0} → ℕ → ℕ → D → ResourceMonitor D → ResourceMonitor D
update_usage task_id memory_bytes cpu_percent m = elim (lookup task_id m) [
  | none ↦ m
  | some info ↦
      insert task_id
        (record info {
          usage = record (info.usage) { memory_bytes = memory_bytes; cpu_percent = cpu_percent };
        })
        m
]

module _ {D : Type 0} (over : D → ℕ → Bool) where
  unfoldable pub exceeds : ResourceUsage D → ResourceLimits → Bool
  exceeds u l =
      if has_time_limit l && ltb l.max_execution_time u.execution_time
      then true
      else if has_memory_limit l && ltb l.max_memory_bytes u.memory_bytes
      then true
      else if has_cpu_limit l && over u.cpu_percent l.max_cpu_percent
      then true
      else false

  unfoldable pub check_limits : ℕ → ℕ → ResourceMonitor D → ResourceMonitor D × Bool
  check_limits now task_id m = elim (lookup task_id m) [
    | none ↦ (m, false)
    | some info ↦
        let usage = record (info.usage) { execution_time = elapsed_ms info.start_time now } in
        (insert task_id (record info { usage = usage }) m, exceeds usage info.limits)
  ]

module _ {D : Type 0} (zero_percent : D) where
  abbrev pub no_usage : ResourceUsage D
  no_usage = record { execution_time = 0; memory_bytes = 0; cpu_percent = zero_percent }

  unfoldable pub start_monitoring : ℕ → ℕ → ResourceLimits → ResourceMonitor D → ResourceMonitor D
  start_monitoring now task_id limits m =
      insert task_id
        (record { limits = limits; usage = no_usage; start_time = now; monitoring = true }) m

  unfoldable pub get_usage : ℕ → ℕ → ResourceMonitor D → ResourceUsage D
  get_usage now task_id m = elim (lookup task_id m) [
    | none ↦ no_usage
    | some info ↦ record (info.usage) { execution_time = elapsed_ms info.start_time now }
  ]
