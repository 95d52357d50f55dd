-- ===== src/Pool/Conserve.antt =====
-- ThreadPool as a whole: submission and the search of a worker.
use nexus_task.Prelude.{
  ℕ, ◌+◌, ◌<◌, ◌≡◌, subst, true, Option, List, [], ◌∷◌, inl, inr, if◌then◌else◌, arith, Bool-cases,
  get_or,
}
use nexus_task.Task.{TaskPriority}
use nexus_task.Pool.{
  QueueSet, Pool, try_submit, try_submit_to_local, submit_global, local_of, value_or,
}
use nexus_task.Pool.Priority.{Held, no_tasks}
use nexus_task.Pool.Submit.{PoolHolds, in_held, in_all, in_pool, Put, local_Put, global_Put}

-- A running pool tries the local queue, and then the global one.
try_submit_running :
    (pool : Pool) (t : ℕ) (own : TaskPriority) (override : Option TaskPriority)
    → pool.running ≡ true
    → let p = value_or override own in
      let (pool', done) = try_submit_to_local pool t p in
      try_submit pool t own override ≡ (if done then (pool', true) else submit_global pool' t p)
unfolding try_submit
try_submit_running pool t own override run = simp run

-- On a running pool, `try_submit` answers true and the task is in one queue more, or it answers
-- false and the queues hold what they held.
pub try_submit-Put :
    (pool : Pool) (g : Held) (hs : List Held) (t : ℕ) (own : TaskPriority)
    (override : Option TaskPriority)
    → PoolHolds pool g hs
    → pool.running ≡ true
    → (g' : Held) × (hs' : List Held) × PoolHolds (try_submit pool t own override).0 g' hs'
      × Put t (try_submit pool t own override).1 (λ a. in_pool a g hs) (λ a. in_pool a g' hs')
try_submit-Put pool g hs t own override v run =
    let p = value_or override own in
    let (hs', w, put) = local_Put pool g hs v t p in
    rw (try_submit_running pool t own override run)
      (elim (Bool-cases (try_submit_to_local pool t p).1) [
        | inl done ↦ rw done (
          g,
          hs',
          w,
          λ a.
              omega (arith, subst (λ b. Put t b (λ x. in_all x hs) (λ x. in_all x hs')) done put a),
        )
        | inr full ↦
            let (g', w', put') = global_Put (try_submit_to_local pool t p).0 g hs' w t p in
            rw full (
              g',
              hs',
              w',
              λ a. omega (
                arith,
                put' a,
                subst (λ b. Put t b (λ x. in_all x hs) (λ x. in_all x hs')) full put a,
              ),
            )
      ])

-- The worker's own queue holds nothing.
abbrev OwnEmpty : ℕ → ℕ → List Held → Type 0
OwnEmpty thread i [] = Unit
OwnEmpty thread i (h ∷ hs) = ((a : ℕ) → i ≡ thread → in_held a h ≡ 0) × OwnEmpty thread (i + 1) hs

module _ (pool : Pool) (g : Held) (hs : List Held) (v : PoolHolds pool g hs) (thread : ℕ)
    (in_range : thread < pool.num_threads) where
  abbrev own_set : QueueSet
  own_set = local_of pool.global_queue pool.local_queues thread

  abbrev own_held : Held
  own_held = get_or hs thread no_tasks
