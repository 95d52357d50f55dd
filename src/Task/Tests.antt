-- ===== src/Task/Tests.antt =====
-- A task with two retries: the theorems at it.
use nexus_task.Prelude.{ℕ, ◌≡◌, refl, true, false, none, some, [], arith}
use nexus_task.Task.{
  Task, TaskOptions, normal, pending, failed, Outcome, returns, Readings, execute, thrown,
}
use nexus_task.Prelude.{pos}
use nexus_task.Task.Life.{life, life_lem}

abbrev two_retries : TaskOptions
two_retries = record {
  priority = normal;
  max_retries = 2;
  timeout = 0;
  deadline = none;
  category = "";
  track_metrics = true;
}

abbrev tried : ℕ → Task
tried n = record {
  id = 1;
  name = "task";
  status = pending;
  dependencies = [];
  dependents = [];
  dependencies_count = pos 0;
  options = two_retries;
  metadata = [];
  is_cancelled = false;
  enqueued = true;
  attempts = n;
  created_time = 0;
  start_time = none;
  end_time = none;
  last_scheduled_time = none;
}

abbrev clock : Readings
clock = record { started = 5; checked = 5; finished = 6; caught = 6 }

abbrev ran : Task × Outcome ℕ
ran = execute clock (returns 7) (tried 0)

life_lem_example :
    (t' : Task) × (life 3 (λ _. clock) (thrown 1) (tried 0) ≡ some t')
    × (t'.attempts ≡ 3)
    × (t'.status ≡ failed)
life_lem_example = life_lem (λ _. clock) (thrown 1) (tried 0) refl refl (omega arith)
