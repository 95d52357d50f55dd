-- ===== src/Queue/Race/Single.antt =====
-- One producer and one consumer, interleaved in any way: the consumer gets the tasks in order.
pub mod Producer
pub mod Consumer
use Prim.Native.Nat.{bit_and}
use native.Mathlib.Nat.{mod-eq_of_lt, mod-add-mod}
use native.Mathlib.Decide.{dec_lt}
use mathlib.Core.List.{append-nil}
use nexus_task.Prelude.{
  ℕ, zero, suc, ◌+◌, ◌-◌, ◌%◌, ◌^◌, ◌≤◌, ◌<◌, ◌≡◌, ◌≢◌, refl, sym, ap, ap₂, ◌∙◌, arith, Bool, true,
  false, Option, none, some, List, [], ◌∷◌, ◌++◌, ◌=ℕ◌, if◌then◌else◌, Bool-cases, Option-cases,
  inl, inr, add64, length, get_elem?, set, =ℕ_iff, length-append,
}
use nexus_task.Queue.{Queue, slot, cas_null}
use nexus_task.Queue.Cells.{
  Holds, tail_in, next, head_masked, pushed-Holds, popped, popped-Holds, wrap_cases,
}
use nexus_task.Queue.Race.{
  Pc, idle, loads_head, loads_tail, exchanges, stores_tail, enqueued, reads_head, reads_tail,
  reads_slot, claims, stores_head, dequeued, access, cas_task, found_in, puts, takes,
}
use nexus_task.Queue.Race.Conserve.{task_won}

-- Where the tail and the head stand once the stores that are due are made.
abbrev pub due_tail : Pc → ℕ → ℕ
due_tail (stores_tail next_tail) tail = next_tail
due_tail _ tail = tail

abbrev pub due_head : Pc → ℕ → ℕ
due_head (stores_head next_head task) head = next_head
due_head _ head = head

abbrev pub lag : Pc → ℕ
lag (stores_head next_head task) = 1
lag _ = 0

abbrev pub settled : Queue ℕ → Pc → Pc → Queue ℕ
settled q producer consumer = record q {
  head = due_head consumer q.head;
  tail = due_tail producer q.tail;
}

abbrev pub Starts : ℕ → List ℕ → Type 0
Starts task [] = ⊥
Starts task (x ∷ xs) = x ≡ task

-- A head that was read so long ago that `d` tasks have been taken since, where `lagging` of these
-- are not yet behind the head that is stored.
abbrev pub Behind : Queue ℕ → List ℕ → ℕ → ℕ → Type 0
Behind s xs lagging head =
    (d : ℕ) × (head < s.capacity)
    × ((head + d) % s.capacity ≡ s.head)
    × (lagging ≤ d)
    × (d + length xs < s.capacity)

-- What the producer's position says of the tasks in the queue, and what the consumer's says.
abbrev pub Producing : Queue ℕ → List ℕ → ℕ → Pc → Type 0
Producing s xs lagging idle = Unit
Producing s xs lagging (loads_head task) = Unit
Producing s xs lagging (loads_tail task head) = Behind s xs lagging head
Producing s xs lagging (exchanges task tail next_tail) =
    (tail ≡ s.tail)
    × (next_tail ≡ (s.tail + 1) % s.capacity)
    × (lagging + length xs + 1 < s.capacity)
Producing s xs lagging (stores_tail next_tail) = Unit
Producing s xs lagging (enqueued done) = Unit
Producing s xs lagging _ = ⊥

abbrev pub Consuming : Queue ℕ → List ℕ → Pc → Type 0
Consuming s xs idle = Unit
Consuming s xs reads_head = Unit
Consuming s xs (reads_tail head) = head ≡ s.head
Consuming s xs (reads_slot head) = head ≡ s.head
Consuming s xs (claims head task) = (head ≡ s.head) × Starts task xs
Consuming s xs (stores_head next_head task) = Unit
Consuming s xs (dequeued task) = Unit
Consuming s xs _ = ⊥

-- The queue and its two threads hold the list `xs`.
pub record Inv (q : Queue ℕ) (producer consumer : Pc) (xs : List ℕ) : Type 0 where
  pub holds : Holds (settled q producer consumer) xs
  pub head_at : (q.head + lag consumer) % q.capacity ≡ due_head consumer q.head
  pub head_in : q.head < q.capacity
  pub lagging : lag consumer + length xs < q.capacity
  pub producing : Producing (settled q producer consumer) xs (lag consumer) producer
  pub consuming : Consuming (settled q producer consumer) xs consumer
