-- ===== src/Pool/Pending.antt =====
-- What the pool answers about the tasks that wait in its queues.
use nexus_task.Prelude.{
  ℕ, ◌+◌, ◌<◌, ◌≡◌, refl, arith, List, [], ◌∷◌, length, ltb, ◌=ℕ◌, word, add64,
}
use nexus_task.Queue.Cells.{is_empty-Holds, size-Holds}
use nexus_task.Pool.{
  QueueSet, Pool, set_is_empty, set_size, sizes, pending_tasks, any_pending, has_pending_work,
}
use nexus_task.Pool.Priority.{Held, SetHolds}
use nexus_task.Pool.Submit.{LocalsHold, PoolHolds}

-- How many tasks some queues hold.
abbrev pub tasks_in : Held → ℕ
tasks_in h = length h.lows + length h.normals + length h.highs + length h.criticals

abbrev pub tasks_in_all : List Held → ℕ
tasks_in_all [] = 0
tasks_in_all (h ∷ hs) = tasks_in h + tasks_in_all hs

module _ (limit : ℕ) (s : QueueSet) (h : Held) (v : SetHolds limit s h) where
  set_is_empty-SetHolds : set_is_empty s ≡ (tasks_in h =ℕ 0)
  unfolding set_is_empty
  set_is_empty-SetHolds =
      rw
        (
          is_empty-Holds s.lows h.lows v.low_held,
          is_empty-Holds s.normals h.normals v.normal_held,
          is_empty-Holds s.highs h.highs v.high_held,
          is_empty-Holds s.criticals h.criticals v.critical_held,
        )
        (ground arith)

  set_size-SetHolds : tasks_in h < word → set_size s ≡ tasks_in h
  unfolding set_size
  set_size-SetHolds small =
      rw
        (
          size-Holds s.lows h.lows v.low_held,
          size-Holds s.normals h.normals v.normal_held,
          size-Holds s.highs h.highs v.high_held,
          size-Holds s.criticals h.criticals v.critical_held,
        )
        (omega (arith, small))

any_pending-LocalsHold :
    (ss : List QueueSet) (hs : List Held)
    → LocalsHold ss hs
    → any_pending ss ≡ ltb 0 (tasks_in_all hs)
unfolding any_pending
any_pending-LocalsHold [] [] v = refl
any_pending-LocalsHold [] (h ∷ hs) v = absurd v
any_pending-LocalsHold (s ∷ ss) [] v = absurd v
any_pending-LocalsHold (s ∷ ss) (h ∷ hs) v =
    ground (arith, set_is_empty-SetHolds 511 s h v.0, any_pending-LocalsHold ss hs v.1)

sizes-LocalsHold :
    (ss : List QueueSet) (hs : List Held) (total : ℕ)
    → LocalsHold ss hs
    → total + tasks_in_all hs < word
    → sizes ss total ≡ total + tasks_in_all hs
unfolding sizes
sizes-LocalsHold [] [] total v small = omega arith
sizes-LocalsHold [] (h ∷ hs) total v small = absurd v
sizes-LocalsHold (s ∷ ss) [] total v small = absurd v
sizes-LocalsHold (s ∷ ss) (h ∷ hs) total v small =
    let here : add64 total (set_size s) ≡ total + tasks_in h =
      omega (arith, small, set_size-SetHolds 511 s h v.0 (omega (arith, small))) in
    rw here (omega (arith, sizes-LocalsHold ss hs (total + tasks_in h) v.1 (omega (arith, small))))

-- `has_pending_work` answers whether the queues of the pool hold a task, and `pending_tasks` how many
-- they hold, if those are fewer than 2^64.
pub pending-PoolHolds :
    (pool : Pool) (g : Held) (hs : List Held)
    → PoolHolds pool g hs
    → tasks_in g + tasks_in_all hs < word
    → (has_pending_work pool ≡ ltb 0 (tasks_in g + tasks_in_all hs))
      × (pending_tasks pool ≡ tasks_in g + tasks_in_all hs)
unfolding has_pending_work pending_tasks
pending-PoolHolds pool g hs v small = (
  ground (
    arith,
    set_is_empty-SetHolds 2047 pool.global_queue g v.global_held,
    any_pending-LocalsHold pool.local_queues hs v.locals_held,
  ),
  rw (set_size-SetHolds 2047 pool.global_queue g v.global_held (omega (arith, small)))
      (sizes-LocalsHold pool.local_queues hs (tasks_in g) v.locals_held small),
)
