-- ===== src/Queue/Race.antt =====
-- include/task_engine/task_queue.hpp under interleaving: `try_enqueue` and `try_dequeue` one access to
-- the shared memory at a time, by any number of threads. The accesses of all threads stand in one
-- order (sequential consistency); a task is its address.
mod Tests
pub mod Range
pub mod Conserve
pub mod Single
pub mod Order
pub mod Progress
pub mod Stalled
use Prim.Native.Nat.{bit_and}
use nexus_task.Prelude.{
  ℕ, Bool, true, false, Option, none, some, List, [], ◌∷◌, ◌++◌, ◌=ℕ◌, if◌then◌else◌, set, add64,
}
use nexus_task.Queue.{Queue, slot, cas_null}

-- Where a thread stands, with the local variables that it still needs: before an access, or after a
-- call with its reply.
pub data Pc : Type 0 where
  idle : Pc
  loads_head : (task : ℕ) → Pc
  loads_tail : (task head : ℕ) → Pc
  exchanges : (task tail next_tail : ℕ) → Pc
  stores_tail : (next_tail : ℕ) → Pc
  enqueued : Bool → Pc
  reads_head : Pc
  reads_tail : (head : ℕ) → Pc
  reads_slot : (head : ℕ) → Pc
  claims : (head task : ℕ) → Pc
  stores_head : (next_head task : ℕ) → Pc
  dequeued : Option ℕ → Pc

-- `compare_exchange_weak(task, nullptr)` on a slot.
abbrev pub cas_task : Bool → ℕ → Option ℕ → Bool
cas_task true task cell = false
cas_task false task none = false
cas_task false task (some found) = found =ℕ task

abbrev pub found_in : ℕ → Option ℕ → Pc
found_in head none = dequeued none
found_in head (some task) = claims head task

-- The next access of a thread. One that is in no call makes none.
unfoldable pub access : Bool → Queue ℕ → Pc → Queue ℕ × Pc
access spurious q (loads_head task) = (q, loads_tail task q.head)
access spurious q (loads_tail task head) =
    let next_tail = bit_and (add64 q.tail 1) q.mask in
    (
      q,
      if next_tail =ℕ bit_and head q.mask then enqueued false else exchanges task q.tail next_tail,
    )
access spurious q (exchanges task tail next_tail) =
    if cas_null spurious (slot q tail)
    then (record q { buffer = set q.buffer tail (some task) }, stores_tail next_tail)
    else (q, enqueued false)
access spurious q (stores_tail next_tail) = (record q { tail = next_tail }, enqueued true)
access spurious q reads_head = (q, reads_tail q.head)
access spurious q (reads_tail head) = (q, if head =ℕ q.tail then dequeued none else reads_slot head)
access spurious q (reads_slot head) = (q, found_in head (slot q (bit_and head q.mask)))
access spurious q (claims head task) =
    if cas_task spurious task (slot q (bit_and head q.mask))
    then (
      record q { buffer = set q.buffer (bit_and head q.mask) none },
      stores_head (bit_and (add64 head 1) q.mask) task,
    )
    else (q, dequeued none)
access spurious q (stores_head next_head task) =
    (record q { head = next_head }, dequeued (some task))
access spurious q idle = (q, idle)
access spurious q (enqueued done) = (q, enqueued done)
access spurious q (dequeued task) = (q, dequeued task)

abbrev pub between_calls : Pc → Bool
between_calls idle = true
between_calls (enqueued done) = true
between_calls (dequeued task) = true
between_calls _ = false

-- The task that an access puts into a slot, and the one that it takes out of one.
abbrev pub puts : Bool → Queue ℕ → Pc → List ℕ
puts spurious q (exchanges task tail next_tail) =
    if cas_null spurious (slot q tail) then task ∷ [] else []
puts spurious q _ = []

abbrev pub takes : Bool → Queue ℕ → Pc → List ℕ
takes spurious q (claims head task) =
    if cas_task spurious task (slot q (bit_and head q.mask)) then task ∷ [] else []
takes spurious q _ = []

-- The queue and the threads, with the history: the tasks put in and taken out so far.
pub record World : Type 0 where
  pub queue : Queue ℕ
  pub pc : ℕ → Pc
  pub put : List ℕ
  pub taken : List ℕ

abbrev pub move_to : ℕ → Pc → (ℕ → Pc) → ℕ → Pc
move_to thread p pc i = if thread =ℕ i then p else pc i

pub data Event : Type 0 where
  calls_enqueue : (thread task : ℕ) → Event
  calls_dequeue : (thread : ℕ) → Event
  accesses : (thread : ℕ) (spurious : Bool) → Event

-- A thread that is in a call begins no other.
abbrev pub begin : ℕ → Pc → World → World
begin thread p w =
    if between_calls (w.pc thread) then record w { pc = move_to thread p w.pc } else w

unfoldable pub happen : Event → World → World
unfolding access
happen (calls_enqueue thread task) w = begin thread (loads_head task) w
happen (calls_dequeue thread) w = begin thread reads_head w
happen (accesses thread spurious) w =
    let (q, p) = access spurious w.queue (w.pc thread) in
    record {
      queue = q;
      pc = move_to thread p w.pc;
      put = w.put ++ puts spurious w.queue (w.pc thread);
      taken = w.taken ++ takes spurious w.queue (w.pc thread);
    }

-- A schedule.
unfoldable pub play : List Event → World → World
play [] w = w
play (e ∷ es) w = play es (happen e w)

abbrev pub begins_with : Queue ℕ → World
begins_with q = record { queue = q; pc = λ _. idle; put = []; taken = [] }
