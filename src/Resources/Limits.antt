-- ===== src/Resources/Limits.antt =====
-- When the monitor says that a task exceeds its limits.
use nexus_task.Prelude.{
  ℕ, ◌≡◌, refl, ◌∙◌, Bool, true, false, ◌&&◌, ◌||◌, none, some, if◌then◌else◌, ltb, lookup, nat_eq,
  lookup-insert, lookup-erase, ==_refl,
}
use nexus_task.Resources.{
  ResourceLimits, ResourceMonitor, elapsed_ms, start_monitoring, stop_monitoring, update_usage,
  check_limits, exceeds, has_time_limit, has_memory_limit, has_cpu_limit, no_usage,
}

-- A limit that is set, which is to say not 0, is exceeded.
abbrev pub breaks : ℕ → ℕ → Bool
breaks limit used = ltb 0 limit && ltb limit used

or_of_ifs :
    (a b c : Bool)
    → (if a then true else if b then true else if c then true else false) ≡ (a || (b || c))
or_of_ifs true b c = refl
or_of_ifs false true c = refl
or_of_ifs false false true = refl
or_of_ifs false false false = refl

module _ {D : Type 0} (over : D → ℕ → Bool) (zero_percent : D) where
  found_after_start :
      (start task_id : ℕ) (limits : ResourceLimits) (m : ResourceMonitor D)
      → lookup task_id (start_monitoring zero_percent start task_id limits m)
        ≡ some (record {
          limits = limits;
          usage = no_usage zero_percent;
          start_time = start;
          monitoring = true;
        })
  unfolding start_monitoring
  found_after_start start task_id limits m =
      lookup-insert task_id task_id _ m ∙ rw (==_refl task_id) refl

  -- After a task is started and its usage is reported, a check answers whether one of the limits
  -- that are set is exceeded: by the time since the start, by the memory, or by the share of the
  -- processor. After `stop_monitoring` it answers false.
  pub check_limits_lem :
      (start now task_id memory : ℕ) (cpu : D) (limits : ResourceLimits) (m : ResourceMonitor D)
      → let started = start_monitoring zero_percent start task_id limits m in
        let used = update_usage task_id memory cpu started in
        ((check_limits over now task_id used).1 ≡ (
          breaks limits.max_execution_time (elapsed_ms start now)
          || (breaks limits.max_memory_bytes memory
              || (ltb 0 limits.max_cpu_percent && over cpu limits.max_cpu_percent))))
        × ((check_limits over now task_id (stop_monitoring task_id used)).1 ≡ false)
  unfolding check_limits update_usage stop_monitoring exceeds has_time_limit has_memory_limit
      has_cpu_limit
  check_limits_lem start now task_id memory cpu limits m =
      let started = start_monitoring zero_percent start task_id limits m in
      let used = update_usage task_id memory cpu started in
      let found : lookup task_id used
          ≡ some (record {
            limits = limits;
            usage = record { execution_time = 0; memory_bytes = memory; cpu_percent = cpu };
            start_time = start;
            monitoring = true;
          }) =
        rw (found_after_start start task_id limits m, update_usage)
          (lookup-insert task_id task_id _ started ∙ rw (==_refl task_id) refl) in
      let gone : lookup task_id (stop_monitoring task_id used) ≡ none =
        lookup-erase task_id task_id used ∙ rw (==_refl task_id) refl in
      (
        rw (found, check_limits)
            (or_of_ifs (breaks limits.max_execution_time (elapsed_ms start now))
              (breaks limits.max_memory_bytes memory)
              (ltb 0 limits.max_cpu_percent && over cpu limits.max_cpu_percent)),
        rw (gone, check_limits) refl,
      )
