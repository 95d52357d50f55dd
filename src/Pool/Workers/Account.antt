-- ===== src/Pool/Workers/Account.antt =====
-- Where the tasks are that the queues of the pool took in.
use nexus_task.Prelude.{ℕ, ◌+◌, ◌<◌, ◌≡◌, List, [], ◌∷◌, count}
use nexus_task.Pool.{Pool}
use nexus_task.Pool.Priority.{Held}
use nexus_task.Pool.Submit.{PoolHolds, in_pool}
use nexus_task.Pool.Workers.{Crew, PoolEvent, steps}

-- The queues hold some lists, and each task that they took in has been started once or stands in
-- them once, as often as it was taken in.
abbrev pub Accounts : Crew → Type 0
Accounts w =
    (g : Held) × (hs : List Held) × PoolHolds w.pool g hs
    × ((a : ℕ) → count a w.put ≡ count a w.started + in_pool a g hs)

-- The steps are those of the workers of the pool.
abbrev pub Staffed : ℕ → List PoolEvent → Type 0
Staffed threads [] = Unit
Staffed threads (steps i ∷ es) = (i < threads) × Staffed threads es
Staffed threads (_ ∷ es) = Staffed threads es
