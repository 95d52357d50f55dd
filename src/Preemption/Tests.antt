-- ===== src/Preemption/Tests.antt =====
-- Two requests for preemption: the theorem at them.
use nexus_task.Prelude.{true, [], ◌∷◌}
use nexus_task.Task.{low, normal}
use nexus_task.Preemption.{Preemptor}

abbrev two : Preemptor
two = record { enabled = true; preemption_requests = (4, normal) ∷ (7, low) ∷ [] }
