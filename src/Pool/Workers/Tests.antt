-- ===== src/Pool/Workers/Tests.antt =====
-- A pool of two workers at work: the theorems at it, and a shutdown that a worker misses.
use nexus_task.Prelude.{◌≡◌, refl, none, false, List, [], ◌∷◌, arith}
use nexus_task.Task.{high}
use nexus_task.Pool.Create.{empty_pool}
use nexus_task.Pool.Workers.{
  work_decided, ended, Crew, PoolEvent, steps, wakes, wakes_all, submits, stores_shutdown, work,
  employs,
}
use nexus_task.Pool.Workers.Shutdown.{worker_ends}

-- Task 7 is submitted, worker 1 is notified, finds it and runs it.
abbrev shift : List PoolEvent
shift =
    submits 7 high none
    ∷ wakes 1
    ∷ steps 1
    ∷ steps 1
    ∷ steps 1
    ∷ stores_shutdown
    ∷ steps 1
    ∷ steps 1
    ∷ []

abbrev closing : Crew
closing = record (employs (empty_pool 2)) { pool = record (empty_pool 2) { running = false } }

abbrev five_steps : List PoolEvent
five_steps = steps 0 ∷ steps 1 ∷ steps 0 ∷ steps 0 ∷ wakes_all ∷ steps 0 ∷ steps 0 ∷ []

worker_ends_example : (work five_steps closing).place 0 ≡ ended
worker_ends_example = worker_ends 0 five_steps closing refl refl (omega arith)

-- Worker 0 has found no work when the pool is shut down and all workers are notified.
abbrev drowsy : Crew
drowsy = record (employs (empty_pool 2)) { place = λ _. work_decided }
