-- ===== src/Queue/Race/Range.antt =====
-- Under every schedule the indices that the threads use stay inside the buffer.
use Prim.Native.Nat.{bit_and}
use nexus_task.Prelude.{
  ℕ, ◌%◌, ◌<◌, ◌≤◌, ◌≡◌, ◌∙◌, refl, arith, Bool, Option, none, some, List, [], ◌∷◌, length,
  length-set, ◌=ℕ◌, Bool-cases, inl, inr, set, add64,
}
use nexus_task.Queue.{Queue, slot, cas_null}
use nexus_task.Queue.Cells.{fresh, fresh-Holds}
use nexus_task.Queue.Race.{
  Pc, idle, loads_head, loads_tail, exchanges, stores_tail, enqueued, reads_head, reads_tail,
  reads_slot, claims, stores_head, dequeued, access, World, Event, calls_enqueue, calls_dequeue,
  accesses, happen, play, begins_with, between_calls, begin, cas_task, found_in,
}

-- The positions that a thread keeps are positions of the buffer.
abbrev pub Fits : ℕ → Pc → Type 0
Fits n (exchanges task tail next_tail) = (tail < n) × (next_tail < n)
Fits n (stores_tail next_tail) = next_tail < n
Fits n (stores_head next_head task) = next_head < n
Fits n _ = Unit

pub record InRange (q : Queue ℕ) : Type 0 where
  pub masked : (x : ℕ) → bit_and x q.mask ≡ x % q.capacity
  pub sized : length q.buffer ≡ q.capacity
  pub some_cell : 0 < q.capacity
  pub tail_in : q.tail < q.capacity

-- An access keeps the capacity, the range, and the positions of its thread.
abbrev Stays : Queue ℕ → Queue ℕ × Pc → Type 0
Stays q (q', p') = InRange q' × Fits q.capacity p' × (q'.capacity ≡ q.capacity)

module _ (q : Queue ℕ) (v : InRange q) where
  masked_in : (x : ℕ) → bit_and x q.mask < q.capacity
  masked_in x = omega (arith, v.masked x, v.some_cell)

  with_cell : (i : ℕ) (cell : Option ℕ) → InRange (record q { buffer = set q.buffer i cell })
  with_cell i cell = record {
    masked = v.masked;
    sized = length-set q.buffer i cell ∙ v.sized;
    some_cell = v.some_cell;
    tail_in = v.tail_in;
  }

  found_in-Fits : (head : ℕ) (cell : Option ℕ) → Fits q.capacity (found_in head cell)
  found_in-Fits head none = tt
  found_in-Fits head (some task) = tt

  access-Stays : (spurious : Bool) (p : Pc) → Fits q.capacity p → Stays q (access spurious q p)
  unfolding access
  access-Stays spurious idle f = (v, tt, refl)
  access-Stays spurious (loads_head task) f = (v, tt, refl)
  access-Stays spurious (loads_tail task head) f =
      elim (Bool-cases (bit_and (add64 q.tail 1) q.mask =ℕ bit_and head q.mask)) [
        | inl e ↦ rw e (v, tt, refl)
        | inr e ↦ rw e (v, (v.tail_in, masked_in (add64 q.tail 1)), refl)
      ]
  access-Stays spurious (exchanges task tail next_tail) f =
      elim (Bool-cases (cas_null spurious (slot q tail))) [
        | inl e ↦ rw e (with_cell tail (some task), f.1, refl)
        | inr e ↦ rw e (v, tt, refl)
      ]
  access-Stays spurious (stores_tail next_tail) f = (
    record { masked = v.masked; sized = v.sized; some_cell = v.some_cell; tail_in = f },
    tt,
    refl,
  )
  access-Stays spurious (enqueued done) f = (v, tt, refl)
  access-Stays spurious reads_head f = (v, tt, refl)
  access-Stays spurious (reads_tail head) f = elim (Bool-cases (head =ℕ q.tail)) [
    | inl e ↦ rw e (v, tt, refl)
    | inr e ↦ rw e (v, tt, refl)
  ]
  access-Stays spurious (reads_slot head) f =
      (v, found_in-Fits head (slot q (bit_and head q.mask)), refl)
  access-Stays spurious (claims head task) f =
      elim (Bool-cases (cas_task spurious task (slot q (bit_and head q.mask)))) [
        | inl e ↦ rw e (with_cell (bit_and head q.mask) none, masked_in (add64 head 1), refl)
        | inr e ↦ rw e (v, tt, refl)
      ]
  access-Stays spurious (stores_head next_head task) f = (
    record { masked = v.masked; sized = v.sized; some_cell = v.some_cell; tail_in = v.tail_in },
    tt,
    refl,
  )
  access-Stays spurious (dequeued task) f = (v, tt, refl)

pub record AllFit (w : World) : Type 0 where
  pub range : InRange w.queue
  pub fit : (i : ℕ) → Fits w.queue.capacity (w.pc i)

-- A queue of `2 ^ k` cells that no thread works on.
pub fresh-AllFit : (k : ℕ) → k ≤ 63 → AllFit (begins_with (fresh k))
fresh-AllFit k h =
    let v = fresh-Holds {A = ℕ} k h in
    record {
      range = record {
        masked = v.masked;
        sized = v.sized;
        some_cell = v.head_in;
        tail_in = v.room;
      };
      fit = λ i. tt;
    }

begin-AllFit :
    (thread : ℕ) (p : Pc) (w : World) → ((n : ℕ) → Fits n p) → AllFit w → AllFit (begin thread p w)
begin-AllFit thread p w f v = elim (Bool-cases (between_calls (w.pc thread))) [
  | inr e ↦ rw e v
  | inl e ↦ rw e (record {
    range = v.range;
    fit = λ i. elim (Bool-cases (thread =ℕ i)) [
      | inl same ↦ rw same (f w.queue.capacity)
      | inr other ↦ rw other (v.fit i)
    ];
  })
]

pub happen-AllFit : (e : Event) (w : World) → AllFit w → AllFit (happen e w)
unfolding happen
happen-AllFit (calls_enqueue thread task) w v = begin-AllFit thread (loads_head task) w (λ n. tt) v
happen-AllFit (calls_dequeue thread) w v = begin-AllFit thread reads_head w (λ n. tt) v
happen-AllFit (accesses thread spurious) w v =
    let (range, fits, same) = access-Stays w.queue v.range spurious (w.pc thread) (v.fit thread) in
    record {
      range = range;
      fit = λ i. rw same (elim (Bool-cases (thread =ℕ i)) [
        | inl here ↦ rw here fits
        | inr other ↦ rw other (v.fit i)
      ]);
    }

-- Every schedule keeps every position of every thread inside the buffer.
pub play-AllFit : (es : List Event) (w : World) → AllFit w → AllFit (play es w)
unfolding play
play-AllFit [] w v = v
play-AllFit (e ∷ es) w v = play-AllFit es (happen e w) (happen-AllFit e w v)
