-- ===== src/Queue.antt =====
-- include/task_engine/task_queue.hpp: LockFreeTaskQueue, a circular buffer of task pointers.
-- A call is one atomic step. `nullptr` is `none`; `compare_exchange_weak` may fail for no reason,
-- which the argument `spurious` decides.
mod Tests
pub mod Mask
pub mod Cells
pub mod Fifo
pub mod Batch
pub mod Race
pub mod Wait
use Prim.Native.Nat.{bit_and}
use nexus_task.Prelude.{
  ℕ, zero, suc, ◌+◌, ◌-◌, ◌*◌, ◌^◌, ◌≤◌, ◌<◌, ◌≡◌, refl, Bool, true, false, not, ◌&&◌, ◌||◌, Option,
  none, some, List, [], ◌∷◌, ◌++◌, arith, ltb, leb, ◌=ℕ◌, if◌then◌else◌, length, get_or, set,
  replicate, word, add64, sub64,
}

pub record Queue {ℓ} (A : Type ℓ) : Type ℓ where
  pub capacity : ℕ
  pub mask : ℕ
  pub buffer : List (Option A)
  pub head : ℕ
  pub tail : ℕ

module _ {ℓ} {A : Type ℓ} where
  -- The constructor; `none` is the exception `invalid_argument`.
  pub init : ℕ → Option (Queue A)
  init capacity =
      let mask = sub64 capacity 1 in
      if bit_and capacity mask =ℕ 0
      then some (record {
        capacity = capacity;
        mask = mask;
        buffer = replicate capacity none;
        head = 0;
        tail = 0;
      })
      else none

  abbrev pub slot : Queue A → ℕ → Option A
  slot q i = get_or q.buffer i none

  -- `compare_exchange_weak(nullptr, task)` on a slot.
  abbrev pub cas_null : Bool → Option A → Bool
  cas_null true cell = false
  cas_null false none = true
  cas_null false (some a) = false

  pub try_enqueue : Bool → Queue A → A → Queue A × Bool
  try_enqueue spurious q task =
      let next_tail = bit_and (add64 q.tail 1) q.mask in
      if next_tail =ℕ bit_and q.head q.mask
      then (q, false)
      else if cas_null spurious (slot q q.tail)
      then (record q { buffer = set q.buffer q.tail (some task); tail = next_tail }, true)
      else (q, false)

  -- What `try_dequeue` does with the pointer that it read from the slot at the head.
  pub take_slot : Bool → Queue A → Option A → Queue A × Option A
  take_slot spurious q none = (q, none)
  take_slot true q (some task) = (q, none)
  take_slot false q (some task) = (
    record q {
      buffer = set q.buffer (bit_and q.head q.mask) none;
      head = bit_and (add64 q.head 1) q.mask;
    },
    some task,
  )

  pub try_dequeue : Bool → Queue A → Queue A × Option A
  unfolding take_slot
  try_dequeue spurious q =
      if q.head =ℕ q.tail then (q, none) else take_slot spurious q (slot q (bit_and q.head q.mask))

  pub is_empty : Queue A → Bool
  is_empty q = q.head =ℕ q.tail

  pub is_full : Queue A → Bool
  is_full q = bit_and (add64 q.tail 1) q.mask =ℕ bit_and q.head q.mask

  pub size : Queue A → ℕ
  size q = if leb q.head q.tail then sub64 q.tail q.head else add64 (sub64 q.capacity q.head) q.tail

  pub slack : Queue A → ℕ
  unfolding size
  slack q = sub64 q.capacity (size q)

  -- The loop of `clear`: null the slots from `head` on, up to `tail`.
  pub clear_from : ℕ → ℕ → Queue A → List (Option A) → Option (List (Option A))
  clear_from zero head q buffer = none
  clear_from (suc fuel) head q buffer =
      let rest = clear_from fuel (bit_and (add64 head 1) q.mask) q (set buffer head none) in
      if head =ℕ q.tail then some buffer else rest

  -- `capacity` rounds are enough (`Queue.Batch`); `none` is a loop that has not ended by then.
  pub clear : Queue A → Option (Queue A)
  unfolding clear_from
  clear q = elim (clear_from q.capacity q.head q q.buffer) [
    | none ↦ none
    | some buffer ↦ some (record q { buffer = buffer; head = 0; tail = 0 })
  ]

  -- `spurious i` is for the attempt at the i-th task.
  pub try_enqueue_batch : (ℕ → Bool) → Queue A → List A → Queue A × Bool
  unfolding try_enqueue
  try_enqueue_batch spurious q [] = (q, true)
  try_enqueue_batch spurious q (task ∷ tasks) =
      let (q', done) = try_enqueue (spurious 0) q task in
      let rest = try_enqueue_batch (λ i. spurious (suc i)) q' tasks in
      if done then rest else (q', false)

  -- The tasks that the calls of `try_dequeue` write to `out`, which has room for `room`; their
  -- number is the result.
  pub try_dequeue_batch : (ℕ → Bool) → Queue A → ℕ → Queue A × List A
  unfolding try_dequeue
  try_dequeue_batch spurious q zero = (q, [])
  try_dequeue_batch spurious q (suc room) =
      let (q', task) = try_dequeue (spurious 0) q in
      let (q'', tasks) = try_dequeue_batch (λ i. spurious (suc i)) q' room in
      elim task [ none ↦ (q', []) | some t ↦ (q'', t ∷ tasks) ]
