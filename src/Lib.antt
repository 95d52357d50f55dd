-- ===== src/Lib.antt =====
-- NexusTask: a task execution engine with dependencies, priorities, retries and work stealing. This
-- library models its core as pure functions on explicit states, one module for each component.
--
-- - Queue: include/task_engine/task_queue.hpp, the circular buffer `LockFreeTaskQueue`. A buffer
--   holds a list (Queue.Cells), answers as a bounded FIFO (Queue.Fifo), and has the batch calls and
--   `clear` (Queue.Batch). Queue.Race takes `try_enqueue` and `try_dequeue` apart into their accesses to
--   shared memory, for any number of threads: Queue.Race.Conserve is about every schedule,
--   Queue.Race.Order about one producer and one consumer (by Range, the positions, and Single, the
--   steps of each), Queue.Race.Progress about the end of a call, and Queue.Race.Stalled has a schedule
--   of two producers that loses tasks. Queue.Wait has the waits until a deadline.
-- - Task: include/task_engine/task.hpp. Task.Life is about one task's runs and retries.
-- - Monitor: include/task_engine/performance_monitor.hpp, the counters, and what a reader gets
--   of them (Monitor.Snapshot).
-- - Graph: include/task_engine/dependency_graph.hpp. The tasks are objects on a heap, a function from
--   addresses to tasks, since the map and the edge lists share them. Graph.Wired says when a graph is
--   well formed, Graph.Edges and Graph.Remove treat the operations, Graph.Countdown the counters of
--   open dependencies, Graph.Topology the order and the test for cycles (by Graph.Kahn, the algorithm
--   on ids, and Graph.Bridge and Graph.Reading, what it reads from the heap).
-- - Pool: include/task_engine/thread_pool.hpp, `PriorityQueueSet` and `ThreadPool`, on Queue.
--   Pool.Conserve and Pool.Pending are about submission, search and the waiting tasks. Pool.Workers
--   is `worker_loop` as a state machine, with the threads that submit, pause and shut down; its
--   children follow the tasks (Account), the end of the workers (Shutdown) and their sleep (Asleep).
-- - WorkPool: what the executor relies on of a pool; Pool.Work fills it with Pool.
-- - Executor: include/task_engine/task_executor.hpp, with the part of `worker_loop` that runs a task.
--   It uses Task, Graph, Monitor and a WorkPool; Executor.Steps is its state machine, and
--   Executor.Reach the invariant of its histories (Frame and Kept: what its steps leave alone).
--   Executor.Live is about a round of the scheduler, Executor.Entry about the graph after a
--   submission, Executor.Flags about what a cancellation leaves.
-- - Limiter, Cache, Scheduler, Resources: include/task_engine/rate_limiter.hpp, task_cache.hpp,
--   task_scheduler.hpp and resource_monitor.hpp. Limiter.Wait is the wait for a token.
-- - Group, Batch, Chain: include/task_engine/task_group.hpp, task_batch.hpp and task_chain.hpp, on
--   Executor.
-- - Health: include/task_engine/health_monitor.hpp, on Monitor. Preemption:
--   include/task_engine/task_preemptor.hpp.
-- - Config, Export: include/task_engine/config.hpp and metrics_exporter.hpp, on bytes. Text has what
--   they use of the standard library: texts as lists of codes, and decimal numbers.
-- - Distribution: include/task_engine/distributed_executor.hpp, the nodes and the choice of a
--   node, and Distribution.Transport the submissions to its executors, which are found by address
--   since nodes share them.
--
-- A call of the code is one step of the model; threads take turns between calls. What an
-- interruption inside a call can do is modelled where the code has no lock: in Pool.Workers, where
-- the test of a wait and the sleep are two steps, in Queue.Race, where the accesses of all threads
-- stand in one order (sequential consistency, which is stronger than the orders that the code asks
-- for), and in the loops on the extrema of the monitor, which meet the writes of others;
-- `compare_exchange_weak` may fail for no reason. A step that waits for ever is `none`. Machine
-- words are natural numbers with their wrap-around at 2^64 written out. The clock is an argument,
-- and a loop that waits is a list of rounds, each with its reading of the clock.
-- `std::unordered_map` is an association list in the order of iteration. A double is an element of
-- a type that the caller gives, with the operations that the code uses.
--
-- Fuel: `topological_order` places at most as many tasks as there are, `clear` passes at most as many
-- cells as the buffer has, and the `cancel` of the scheduler takes out at most as many tasks as are
-- queued; each of these bounds is shown to be enough.
--
-- Not modelled: the threads, condition variables and blocking waits of the executor and the
-- schedulers; accessors; the `execute_async` of chains, which drops its promise; remote submitters
-- other than the in-memory transport; the memory orders; the examples and the tests.
pub mod Prelude
pub mod Queue
pub mod Task
pub mod Text
pub mod Monitor
pub mod Export
pub mod Config
pub mod Health
pub mod Preemption
pub mod Batch
pub mod Chain
pub mod Graph
pub mod Pool
pub mod WorkPool
pub mod Executor
pub mod Limiter
pub mod Cache
pub mod Scheduler
pub mod Distribution
pub mod Group
pub mod Resources
