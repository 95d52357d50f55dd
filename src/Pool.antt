-- ===== src/Pool.antt =====
-- include/task_engine/thread_pool.hpp: PriorityQueueSet and ThreadPool. The workers take turns: a
-- call, or one search of a worker for a task, is one step, and no exchange fails for no reason.
-- A task is the number that is its address; its priority is an argument.
mod Tests
pub mod Priority
pub mod Submit
pub mod Create
pub mod Work
pub mod Conserve
pub mod Pending
pub mod Workers
use nexus_task.Prelude.{
  ℕ, zero, suc, ◌+◌, ◌-◌, ◌%◌, ◌≤◌, ◌<◌, ◌≡◌, refl, Bool, true, false, not, ◌&&◌, ◌||◌, Option,
  none, some, List, [], ◌∷◌, ◌++◌, map, if◌then◌else◌, ◌=ℕ◌, length, get_or, set, add64, replicate,
  get_elem?,
}
use nexus_task.Task.{TaskPriority, low, normal, high, critical}
use nexus_task.Queue
use nexus_task.Queue.{Queue, try_enqueue, try_dequeue}

-- `kPriorityLevels`
abbrev pub levels : ℕ
levels = 4

unfoldable pub priority_index : TaskPriority → ℕ
priority_index low = 0
priority_index normal = 1
priority_index high = 2
priority_index critical = 3

-- The four queues of a PriorityQueueSet, from the lowest priority up.
pub record QueueSet : Type 0 where
  pub lows : Queue ℕ
  pub normals : Queue ℕ
  pub highs : Queue ℕ
  pub criticals : Queue ℕ

-- The constructor, from the queue that the constructor of each queue makes.
unfoldable pub create_set : ℕ → Option QueueSet
create_set capacity_per_queue = elim (Queue.init {A = ℕ} capacity_per_queue) [
  | none ↦ none
  | some q ↦ some (record { lows = q; normals = q; highs = q; criticals = q })
]

-- `PriorityQueueSet::try_enqueue(task, priority)`
unfoldable pub enqueue_in : QueueSet → ℕ → TaskPriority → QueueSet × Bool
enqueue_in s task low =
    let (q, done) = try_enqueue false s.lows task in (record s { lows = q }, done)
enqueue_in s task normal =
    let (q, done) = try_enqueue false s.normals task in (record s { normals = q }, done)
enqueue_in s task high =
    let (q, done) = try_enqueue false s.highs task in (record s { highs = q }, done)
enqueue_in s task critical =
    let (q, done) = try_enqueue false s.criticals task in (record s { criticals = q }, done)

-- `try_dequeue_highest` and `steal_highest`: the loop from index 3 down to 0.
pub dequeue_low : QueueSet → QueueSet × Option ℕ
dequeue_low s = let (q, got) = try_dequeue false s.lows in (record s { lows = q }, got)

pub dequeue_normal : QueueSet → QueueSet × Option ℕ
unfolding dequeue_low
dequeue_normal s =
    let (q, got) = try_dequeue false s.normals in
    let s' = record s { normals = q } in elim got [ some t ↦ (s', some t) | none ↦ dequeue_low s' ]

pub dequeue_high : QueueSet → QueueSet × Option ℕ
unfolding dequeue_normal
dequeue_high s =
    let (q, got) = try_dequeue false s.highs in
    let s' = record s { highs = q } in elim got [ some t ↦ (s', some t) | none ↦ dequeue_normal s' ]

unfoldable pub dequeue_highest : QueueSet → QueueSet × Option ℕ
unfolding dequeue_high
dequeue_highest s =
    let (q, got) = try_dequeue false s.criticals in
    let s' = record s { criticals = q } in
    elim got [ some t ↦ (s', some t) | none ↦ dequeue_high s' ]

unfoldable pub set_is_empty : QueueSet → Bool
set_is_empty s =
    Queue.is_empty s.lows
    && Queue.is_empty s.normals
    && Queue.is_empty s.highs
    && Queue.is_empty s.criticals

unfoldable pub set_size : QueueSet → ℕ
set_size s =
    add64 (add64 (add64 (Queue.size s.lows) (Queue.size s.normals)) (Queue.size s.highs))
      (Queue.size s.criticals)

pub record Pool : Type 0 where
  pub num_threads : ℕ
  pub running : Bool
  pub paused : Bool
  pub next_worker : ℕ
  pub global_queue : QueueSet
  pub local_queues : List QueueSet

-- The local queue set of a worker; `spare` stands for a read out of range, which does not occur.
abbrev pub local_of : QueueSet → List QueueSet → ℕ → QueueSet
local_of spare queues i = get_or queues i spare

-- The constructor: queues of 2048 and of 512 cells. The workers start with it.
unfoldable pub create_pool : ℕ → Option Pool
create_pool num_threads = elim (create_set 2048) [
  | none ↦ none
  | some global ↦ elim (create_set 512) [
    | none ↦ none
    | some own ↦ some (record {
      num_threads = num_threads;
      running = true;
      paused = false;
      next_worker = 0;
      global_queue = global;
      local_queues = replicate num_threads own;
    })
  ]
]

unfoldable pub try_submit_to_local : Pool → ℕ → TaskPriority → Pool × Bool
try_submit_to_local pool task priority =
    let target = pool.next_worker % pool.num_threads in
    let (s, done) =
      enqueue_in (local_of pool.global_queue pool.local_queues target) task priority in
    (
      record pool {
        next_worker = add64 pool.next_worker 1;
        local_queues = set pool.local_queues target s;
      },
      done,
    )

-- The global queue, tried once.
unfoldable pub submit_global : Pool → ℕ → TaskPriority → Pool × Bool
submit_global pool task priority =
    let (s, done) = enqueue_in pool.global_queue task priority in
    (record pool { global_queue = s }, done)

-- `value_or`
abbrev pub value_or {ℓ} : {A : Type ℓ} → Option A → A → A
value_or none d = d
value_or (some a) d = a

unfoldable pub try_submit : Pool → ℕ → TaskPriority → Option TaskPriority → Pool × Bool
try_submit pool task own override =
    if not pool.running
    then (pool, false)
    else let priority = value_or override own in
      let (pool', done) = try_submit_to_local pool task priority in
      if done then (pool', true) else submit_global pool' task priority

unfoldable pub pause : Pool → Pool
pause pool = record pool { paused = true }

unfoldable pub resume : Pool → Pool
resume pool = record pool { paused = false }

-- `shutdown`, without the join of the workers.
unfoldable pub shutdown : Pool → Pool
shutdown pool = record pool { running = false }

pub sizes : List QueueSet → ℕ → ℕ
unfolding set_size
sizes [] total = total
sizes (s ∷ rest) total = sizes rest (add64 total (set_size s))

unfoldable pub pending_tasks : Pool → ℕ
unfolding sizes set_size
pending_tasks pool = sizes pool.local_queues (set_size pool.global_queue)

pub any_pending : List QueueSet → Bool
unfolding set_is_empty
any_pending [] = false
any_pending (s ∷ rest) = if not (set_is_empty s) then true else any_pending rest

unfoldable pub has_pending_work : Pool → Bool
unfolding any_pending set_is_empty
has_pending_work pool =
    if not (set_is_empty pool.global_queue) then true else any_pending pool.local_queues

-- The loop of work stealing, from queue `i` on, over the queues of the others.
unfoldable pub steal : ℕ → ℕ → List QueueSet → List QueueSet × Option ℕ
steal thread i [] = ([], none)
steal thread i (s ∷ rest) =
    let (s', got) = dequeue_highest s in
    let (rest', stolen) = steal thread (i + 1) rest in
    if i =ℕ thread
    then (s ∷ rest', stolen)
    else elim got [ some t ↦ (s' ∷ rest, some t) | none ↦ (s' ∷ rest', stolen) ]

-- The search of worker `thread`: its own queues, the global ones, those of the others.
unfoldable pub find_task : Pool → ℕ → Pool × Option ℕ
find_task pool thread =
    let (own, got) = dequeue_highest (local_of pool.global_queue pool.local_queues thread) in
    let pool' = record pool { local_queues = set pool.local_queues thread own } in
    let (global, shared) = dequeue_highest pool.global_queue in
    let pool'' = record pool' { global_queue = global } in
    let (others, stolen) = steal thread 0 pool'.local_queues in
    elim got [
      | some t ↦ (pool', some t)
      | none ↦ elim shared [
        | some t ↦ (pool'', some t)
        | none ↦ (record pool'' { local_queues = others }, stolen)
      ]
    ]

-- `submit`: `none` is a call that does not return, since the queues are full and stay so. The answer
-- is false for the exception of a pool that is shut down.
unfoldable pub submit : Pool → ℕ → TaskPriority → Option TaskPriority → Option (Pool × Bool)
submit pool task own override =
    if not pool.running
    then some (pool, false)
    else let priority = value_or override own in
      let (pool', done) = try_submit_to_local pool task priority in
      let (pool'', late) = submit_global pool' task priority in
      if done then some (pool', true) else if late then some (pool'', true) else none
