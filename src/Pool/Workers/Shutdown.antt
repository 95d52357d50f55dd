-- ===== src/Pool/Workers/Shutdown.antt =====
-- How the workers end once the pool is shut down.
use nexus_task.Prelude.{
  ℕ, ◌-◌, ◌≤◌, ◌≡◌, refl, arith, Bool, true, false, Option, none, some, List, [], ◌∷◌, ◌=ℕ◌,
  Bool-cases, Option-cases, ◌∙◌, inl, inr,
}
use nexus_task.Pool.{
  Pool, try_submit, submit_global, pause, resume, shutdown, find_task, dequeue_highest, local_of,
}
use nexus_task.Pool.Workers.{
  moved-at, Place, loops, pauses, tests_pause, pause_decided, pause_asleep, searches, runs,
  tests_work, work_decided, work_asleep, ended, found, advance, wake, Crew, PoolEvent, steps, wakes,
  wakes_all, submits, stores_shutdown, occur, work, turns, turns-cons, if-same,
}

-- The steps that a worker still makes at most, if it does not sleep.
abbrev pub left : Place → ℕ
left ended = 0
left loops = 1
left (runs task) = 2
left tests_work = 2
left searches = 3
left tests_pause = 4
left pauses = 5
left _ = 0

-- It does not sleep, and has not decided to.
abbrev pub awake : Place → Bool
awake pause_decided = false
awake pause_asleep = false
awake work_decided = false
awake work_asleep = false
awake _ = true

-- A worker that is awake, with so many steps left at most.
abbrev Near : ℕ → Place → Type 0
Near n p = (awake p ≡ true) × (left p ≤ n)

find_task-running : (pool : Pool) (thread : ℕ) → (find_task pool thread).0.running ≡ pool.running
unfolding find_task
find_task-running pool thread =
    elim (Option-cases (dequeue_highest (local_of pool.global_queue pool.local_queues thread)).1) [
      | inr (t, e) ↦ rw (e, find_task) refl
      | inl e ↦ elim (Option-cases (dequeue_highest pool.global_queue).1) [
        | inr (t, f) ↦ rw (e, f, find_task) refl
        | inl f ↦ rw (e, f, find_task) refl
      ]
    ]

found-Near : (got : Option ℕ) → Near 2 (found got)
found-Near none = (refl, omega arith)
found-Near (some task) = (refl, omega arith)

-- With the pool shut down, a step leaves it awake and takes one off.
advance-Near :
    (thread n : ℕ) (pool : Pool) (p : Place)
    → pool.running ≡ false
    → Near n p
    → Near (n - 1) (advance thread pool p).1
unfolding advance
advance-Near thread n pool loops off (up, near) = rw off (refl, omega arith)
advance-Near thread n pool pauses off (up, near) = elim (Bool-cases pool.paused) [
  | inl e ↦ rw e (refl, omega (arith, near))
  | inr e ↦ rw e (refl, omega (arith, near))
]
advance-Near thread n pool tests_pause off (up, near) = ground (arith, off, near)
advance-Near thread n pool searches off (up, near) =
    let (up', near') = found-Near (find_task pool thread).1 in (up', omega (arith, near, near'))
advance-Near thread n pool (runs task) off (up, near) = (refl, omega (arith, near))
advance-Near thread n pool tests_work off (up, near) = ground (arith, off, near)
advance-Near thread n pool ended off (up, near) = (refl, omega arith)
advance-Near thread n pool _ off (up, near) = cc

advance-running :
    (thread : ℕ) (pool : Pool) (p : Place) → (advance thread pool p).0.running ≡ pool.running
unfolding advance
advance-running thread pool searches = find_task-running pool thread
advance-running thread pool _ = refl

occur-running :
    (e : PoolEvent) (w : Crew) → w.pool.running ≡ false → (occur e w).pool.running ≡ false
unfolding occur try_submit submit_global pause resume shutdown
occur-running (steps i) w off = advance-running i w.pool (w.place i) ∙ off
occur-running (submits task own override) w off = rw off refl
occur-running stores_shutdown w off = refl
occur-running _ w off = off

wake-awake : (p : Place) → awake p ≡ true → wake p ≡ p
wake-awake pause_asleep up = cc
wake-awake work_asleep up = cc
wake-awake _ up = refl

left_bound : (p : Place) → left p ≤ 5
left_bound pauses = omega arith
left_bound tests_pause = omega arith
left_bound _ = omega arith

kept : (n : ℕ) (p : Place) → Near n p → Near (n - 0) p
kept n p near = (near.0, omega (arith, near.1))

module _ (thread : ℕ) where
  occur-Near :
      (e : PoolEvent) (n : ℕ) (w : Crew)
      → w.pool.running ≡ false
      → Near n (w.place thread)
      → Near (n - turns thread (e ∷ [])) ((occur e w).place thread)
  unfolding occur
  occur-Near (steps i) n w off near = elim (Bool-cases (i =ℕ thread)) [
    | inl same ↦
        rw (moved-at (λ p. (advance i w.pool p).1) i thread w.place, same)
          (advance-Near i n w.pool (w.place thread) off near)
    | inr other ↦
        rw (moved-at (λ p. (advance i w.pool p).1) i thread w.place, other)
          (kept n (w.place thread) near)
  ]
  occur-Near (wakes i) n w off near =
      rw
        (
          moved-at wake i thread w.place,
          wake-awake (w.place thread) near.0,
          if-same (i =ℕ thread) (w.place thread),
        )
        (kept n (w.place thread) near)
  occur-Near wakes_all n w off near =
      rw (wake-awake (w.place thread) near.0) (kept n (w.place thread) near)
  occur-Near _ n w off near = kept n (w.place thread) near

  Near-ended : (p : Place) → Near 0 p → p ≡ ended
  Near-ended ended near = refl
  Near-ended _ near = ground (arith, near)

  work-Near :
      (es : List PoolEvent) (n : ℕ) (w : Crew)
      → w.pool.running ≡ false
      → Near n (w.place thread)
      → Near (n - turns thread es) ((work es w).place thread)
  unfolding work
  work-Near [] n w off near = kept n (w.place thread) near
  work-Near (e ∷ es) n w off near =
      let later =
        work-Near es (n - turns thread (e ∷ [])) (occur e w) (occur-running e w off)
          (occur-Near e n w off near) in
      (later.0, omega (arith, turns-cons thread e es, later.1))

  -- Once the pool is shut down, a worker that neither sleeps nor has decided to sleep has left its
  -- loop after five steps of its own, whatever else happens in between: the `join` of `shutdown`
  -- does not wait for it for ever.
  pub worker_ends :
      (es : List PoolEvent) (w : Crew)
      → w.pool.running ≡ false
      → awake (w.place thread) ≡ true
      → 5 ≤ turns thread es
      → (work es w).place thread ≡ ended
  worker_ends es w off up enough =
      let (up', near) = work-Near es 5 w off (up, left_bound (w.place thread)) in
      Near-ended _ (up', omega (arith, near, enough))
