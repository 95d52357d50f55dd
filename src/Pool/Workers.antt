-- ===== src/Pool/Workers.antt =====
-- include/task_engine/thread_pool.hpp: worker_loop as a state machine, with what other threads do to
-- the pool in between. A search for a task and an attempt to submit are one step. Between the test of
-- a wait and the sleep the worker holds the mutex; only workers take it, so it is left out, which
-- allows more schedules.
mod Tests
pub mod Account
pub mod Shutdown
pub mod Asleep
use nexus_task.Prelude.{
  ℕ, ◌+◌, Bool, true, false, not, ◌||◌, Option, none, some, List, [], ◌∷◌, ◌++◌, if◌then◌else◌,
  ◌=ℕ◌, ◌≡◌, refl, =ℕ_iff, Bool-cases, inl, inr, arith,
}
use nexus_task.Task.{TaskPriority}
use nexus_task.Pool.{
  Pool, try_submit, submit_global, pause, resume, shutdown, find_task, has_pending_work,
}

-- Where a worker stands: before the test of the loop, before the test for a pause, in the wait for
-- its end, before a search, in a task, in the wait for work, or behind the loop. A wait tests,
-- decides to sleep, and sleeps.
pub data Place : Type 0 where
  loops : Place
  pauses : Place
  tests_pause : Place
  pause_decided : Place
  pause_asleep : Place
  searches : Place
  runs : (task : ℕ) → Place
  tests_work : Place
  work_decided : Place
  work_asleep : Place
  ended : Place

abbrev pub found : Option ℕ → Place
found none = tests_work
found (some task) = runs task

-- The next step of a worker. One that sleeps or has ended makes none.
unfoldable pub advance : ℕ → Pool → Place → Pool × Place
advance thread pool loops = (pool, if pool.running then pauses else ended)
advance thread pool pauses = (pool, if pool.paused then tests_pause else searches)
advance thread pool tests_pause =
    (pool, if not pool.paused || not pool.running then searches else pause_decided)
advance thread pool pause_decided = (pool, pause_asleep)
advance thread pool searches = let (pool', got) = find_task pool thread in (pool', found got)
advance thread pool (runs task) = (pool, loops)
advance thread pool tests_work =
    (pool, if not pool.running || has_pending_work pool then loops else work_decided)
advance thread pool work_decided = (pool, work_asleep)
advance thread pool pause_asleep = (pool, pause_asleep)
advance thread pool work_asleep = (pool, work_asleep)
advance thread pool ended = (pool, ended)

-- A notification reaches a worker, or it wakes for no reason.
abbrev pub wake : Place → Place
wake pause_asleep = tests_pause
wake work_asleep = tests_work
wake place = place

-- The pool and the workers, with the history: the tasks that the queues took in, and those that the
-- workers started.
pub record Crew : Type 0 where
  pub pool : Pool
  pub place : ℕ → Place
  pub put : List ℕ
  pub started : List ℕ

-- `submit` is an attempt of `submits` and then attempts of `resubmits`, with `wakes` at the end; the
-- notifications of all are `wakes_all`.
pub data PoolEvent : Type 0 where
  steps : (thread : ℕ) → PoolEvent
  wakes : (thread : ℕ) → PoolEvent
  wakes_all : PoolEvent
  submits : (task : ℕ) (own : TaskPriority) (override : Option TaskPriority) → PoolEvent
  resubmits : (task : ℕ) (priority : TaskPriority) → PoolEvent
  stores_pause : PoolEvent
  stores_resume : PoolEvent
  stores_shutdown : PoolEvent

abbrev pub listed : Bool → ℕ → List ℕ
listed true task = task ∷ []
listed false task = []

abbrev pub task_of : Place → List ℕ
task_of (runs task) = task ∷ []
task_of _ = []

-- The task that a step starts.
abbrev pub starts : Place → Place → List ℕ
starts searches place = task_of place
starts _ _ = []

abbrev pub moved : ℕ → Place → (ℕ → Place) → ℕ → Place
moved thread p place i = if thread =ℕ i then p else place i

unfoldable pub occur : PoolEvent → Crew → Crew
unfolding advance
occur (steps thread) w =
    let (pool, p) = advance thread w.pool (w.place thread) in
    record {
      pool = pool;
      place = moved thread p w.place;
      put = w.put;
      started = w.started ++ starts (w.place thread) p;
    }
occur (wakes thread) w = record w { place = moved thread (wake (w.place thread)) w.place }
occur wakes_all w = record w { place = λ i. wake (w.place i) }
occur (submits task own override) w =
    let (pool, done) = try_submit w.pool task own override in
    record w { pool = pool; put = w.put ++ listed done task }
occur (resubmits task priority) w =
    let (pool, done) = submit_global w.pool task priority in
    record w { pool = pool; put = w.put ++ listed done task }
occur stores_pause w = record w { pool = pause w.pool }
occur stores_resume w = record w { pool = resume w.pool }
occur stores_shutdown w = record w { pool = shutdown w.pool }

unfoldable pub work : List PoolEvent → Crew → Crew
work [] w = w
work (e ∷ es) w = work es (occur e w)

-- The workers start with the pool.
abbrev pub employs : Pool → Crew
employs pool = record { pool = pool; place = λ _. loops; put = []; started = [] }

-- The steps that a history gives a worker, and the notifications that may reach it.
abbrev pub turns : ℕ → List PoolEvent → ℕ
turns thread [] = 0
turns thread (steps i ∷ es) = (if i =ℕ thread then 1 else 0) + turns thread es
turns thread (_ ∷ es) = turns thread es

abbrev pub wakings : ℕ → List PoolEvent → ℕ
wakings thread [] = 0
wakings thread (wakes i ∷ es) = (if i =ℕ thread then 1 else 0) + wakings thread es
wakings thread (wakes_all ∷ es) = 1 + wakings thread es
wakings thread (_ ∷ es) = wakings thread es

-- A step or a wake-up of a worker, as another or the same one sees it.
pub moved-at :
    (f : Place → Place) (i thread : ℕ) (place : ℕ → Place)
    → moved i (f (place i)) place thread ≡ (if i =ℕ thread then f (place thread) else place thread)
moved-at f i thread place = elim (Bool-cases (i =ℕ thread)) [
  | inl same ↦ rw ((=ℕ_iff i thread).0 same) refl
  | inr other ↦ rw other refl
]

pub if-same : (b : Bool) (p : Place) → (if b then p else p) ≡ p
if-same true p = refl
if-same false p = refl

pub turns-cons :
    (thread : ℕ) (e : PoolEvent) (es : List PoolEvent)
    → turns thread (e ∷ es) ≡ turns thread (e ∷ []) + turns thread es
turns-cons thread (steps i) es = omega arith
turns-cons thread _ es = omega arith

pub wakings-cons :
    (thread : ℕ) (e : PoolEvent) (es : List PoolEvent)
    → wakings thread (e ∷ es) ≡ wakings thread (e ∷ []) + wakings thread es
wakings-cons thread (wakes i) es = omega arith
wakings-cons thread _ es = omega arith
