-- ===== src/Pool/Create.antt =====
-- The constructor of ThreadPool.
use nexus_task.Prelude.{
  ℕ, zero, suc, ◌<◌, ◌≡◌, refl, some, true, false, replicate, length-replicate, arith,
}
use nexus_task.Pool.{QueueSet, Pool, create_pool, create_set}
use nexus_task.Pool.Priority.{Held, SetHolds, no_tasks, fresh_set, create_set_power}
use nexus_task.Pool.Submit.{LocalsHold, PoolHolds}

-- A pool of `n` workers whose queues are empty.
abbrev pub empty_pool : ℕ → Pool
empty_pool n = record {
  num_threads = n;
  running = true;
  paused = false;
  next_worker = 0;
  global_queue = fresh_set 11;
  local_queues = replicate n (fresh_set 9);
}

replicate-LocalsHold :
    (n : ℕ) (s : QueueSet) (h : Held)
    → SetHolds 511 s h
    → LocalsHold (replicate n s) (replicate n h)
replicate-LocalsHold zero s h v = tt
replicate-LocalsHold (suc n) s h v = (v, replicate-LocalsHold n s h v)

pub empty_pool-PoolHolds :
    (n : ℕ) → 0 < n → PoolHolds (empty_pool n) no_tasks (replicate n no_tasks)
empty_pool-PoolHolds n h = record {
  global_held = (create_set_power 11 (omega arith)).1;
  locals_held = replicate-LocalsHold n (fresh_set 9) no_tasks (create_set_power 9 (omega arith)).1;
  sized = length-replicate n (fresh_set 9);
  some_thread = h;
}

-- The constructor succeeds, and with at least one thread it makes a pool whose queues are well
-- formed and empty.
pub create_pool-PoolHolds :
    (n : ℕ)
    → 0 < n
    → (pool : Pool) × (create_pool n ≡ some pool) × PoolHolds pool no_tasks (replicate n no_tasks)
unfolding create_pool
create_pool-PoolHolds n h =
    let global : create_set 2048 ≡ some (fresh_set 11) = (create_set_power 11 (omega arith)).0 in
    let own : create_set 512 ≡ some (fresh_set 9) = (create_set_power 9 (omega arith)).0 in
    (empty_pool n, rw (global, own, create_pool) refl, empty_pool-PoolHolds n h)
