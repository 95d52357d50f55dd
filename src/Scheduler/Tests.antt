-- ===== src/Scheduler/Tests.antt =====
-- TaskScheduler with three scheduled tasks: the theorems at it.
use nexus_task.Prelude.{ℕ, ◌≡◌, refl, Bool, true, none, some, [], ◌∷◌}
use nexus_task.Task.{TaskOptions, normal}
use nexus_task.Scheduler.{ScheduledTask, Scheduler, cancel, take_due, pop}
use nexus_task.Scheduler.Due.{tally, others, cancel_lem, Round, take_due_lem}

abbrev plain : TaskOptions
plain = record {
  priority = normal;
  max_retries = 0;
  timeout = 0;
  deadline = none;
  category = "";
  track_metrics = true;
}

abbrev at : ℕ → ℕ → ScheduledTask ℕ
at id time = record {
  func = id;
  name = "job";
  options = plain;
  scheduled_time = time;
  interval = 0;
  id = id;
}

abbrev scheduler : Scheduler ℕ
scheduler = record {
  running = true;
  scheduled_tasks = at 1 30 ∷ at 2 10 ∷ at 3 20 ∷ [];
  next_id = 4;
}

cancel_lem_example :
    (s' : Scheduler ℕ) × (found : Bool) × (cancel 3 scheduler ≡ some (s', found))
    × ((f : ScheduledTask ℕ → Bool)
        → tally f s'.scheduled_tasks ≡ tally (others 3 f) scheduler.scheduled_tasks)
    × (found ≡ true)
cancel_lem_example = cancel_lem 3 scheduler

take_due_lem_example : Round 15 scheduler (take_due 15 scheduler)
take_due_lem_example = take_due_lem 15 scheduler

take_due_first : (take_due 15 scheduler).1 ≡ some (at 2 10)
unfolding take_due pop
take_due_first = refl
