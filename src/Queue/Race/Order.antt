-- ===== src/Queue/Race/Order.antt =====
-- The schedules of one producer, thread 0, and one consumer, thread 1.
use mathlib.Core.List.{append-nil, append_assoc}
use nexus_task.Prelude.{
  ℕ, zero, suc, ◌≤◌, ◌≡◌, refl, sym, ap, ◌∙◌, arith, Bool, true, false, List, [], ◌∷◌, ◌++◌, ◌=ℕ◌,
  Bool-cases, inl, inr,
}
use nexus_task.Queue.{Queue}
use nexus_task.Queue.Cells.{Holds, fresh, fresh-Holds}
use nexus_task.Queue.Race.{
  Pc, idle, loads_head, exchanges, enqueued, reads_head, claims, dequeued, access, World, Event,
  calls_enqueue, calls_dequeue, accesses, happen, play, begins_with, between_calls, puts, takes,
  move_to,
}
use nexus_task.Queue.Race.Single.{Inv, settled, lag, Producing, Consuming}
use nexus_task.Queue.Race.Single.Producer.{producer-Inv, moves_producer}
use nexus_task.Queue.Race.Single.Consumer.{consumer-Takes, moves_consumer}

-- Thread 0 only enqueues, thread 1 only dequeues, and no other thread calls.
abbrev pub Roles : List Event → Type 0
Roles [] = Unit
Roles (calls_enqueue thread task ∷ es) = (thread ≡ 0) × Roles es
Roles (calls_dequeue thread ∷ es) = (thread ≡ 1) × Roles es
Roles (accesses thread spurious ∷ es) = Roles es

abbrev pub Ordered : World → Type 0
Ordered w =
    (xs : List ℕ) × Inv w.queue (w.pc 0) (w.pc 1) xs
    × (w.put ≡ w.taken ++ xs)
    × ((i : ℕ) → w.pc (suc (suc i)) ≡ idle)

producer_begins :
    (q : Queue ℕ) (p c : Pc) (xs : List ℕ) (task : ℕ)
    → between_calls p ≡ true
    → Inv q p c xs
    → Inv q (loads_head task) c xs
producer_begins q idle c xs task h v =
    rw (← append-nil xs) (moves_producer q idle (loads_head task) c xs v refl tt v.consuming)
producer_begins q (enqueued done) c xs task h v =
    rw (← append-nil xs)
      (moves_producer q (enqueued done) (loads_head task) c xs v refl tt v.consuming)
producer_begins q (dequeued t) c xs task h v = absurd v.producing
producer_begins q _ c xs task h v = cc

consumer_begins :
    (q : Queue ℕ) (p c : Pc) (xs : List ℕ)
    → between_calls c ≡ true
    → Inv q p c xs
    → Inv q p reads_head xs
consumer_begins q p idle xs h v = moves_consumer q p idle reads_head xs v refl refl tt
consumer_begins q p (dequeued t) xs h v =
    moves_consumer q p (dequeued t) reads_head xs v refl refl tt
consumer_begins q p (enqueued done) xs h v = absurd v.consuming
consumer_begins q p _ xs h v = cc

-- The producer takes nothing out, the consumer puts nothing in.
takes_none :
    (spurious : Bool) (q s : Queue ℕ) (xs : List ℕ) (n : ℕ) (p : Pc)
    → Producing s xs n p
    → takes spurious q p ≡ []
takes_none spurious q s xs n (claims head task) v = absurd v
takes_none spurious q s xs n idle v = refl
takes_none spurious q s xs n _ v = refl

puts_none :
    (spurious : Bool) (q s : Queue ℕ) (xs : List ℕ) (p : Pc)
    → Consuming s xs p
    → puts spurious q p ≡ []
puts_none spurious q s xs (exchanges task tail next_tail) v = absurd v
puts_none spurious q s xs idle v = refl
puts_none spurious q s xs _ v = refl

move_none : (thread i : ℕ) (pc : ℕ → Pc) → pc i ≡ idle → move_to thread idle pc i ≡ idle
move_none thread i pc h = elim (Bool-cases (thread =ℕ i)) [ inl e ↦ rw e refl | inr e ↦ rw e h ]

move_others :
    (thread i : ℕ) (p : Pc) (pc : ℕ → Pc)
    → thread ≤ 1
    → pc (suc (suc i)) ≡ idle
    → move_to thread p pc (suc (suc i)) ≡ idle
move_others thread i p pc small h = ground arith

other_than : (i : ℕ) → ((suc (suc i) =ℕ 0) ≡ false) × ((suc (suc i) =ℕ 1) ≡ false)
other_than i = ground arith

happen-Ordered : (e : Event) (w : World) → Roles (e ∷ []) → Ordered w → Ordered (happen e w)
unfolding happen
happen-Ordered (calls_enqueue zero task) w r (xs, v, order, others) =
    elim (Bool-cases (between_calls (w.pc 0))) [
      | inr busy ↦ rw busy (xs, v, order, others)
      | inl free ↦ rw free (
        xs,
        producer_begins w.queue (w.pc 0) (w.pc 1) xs task free v,
        order,
        λ i. move_others 0 i (loads_head task) w.pc (omega arith) (others i),
      )
    ]
happen-Ordered (calls_enqueue (suc i) task) w r v = absurd (omega (arith, r))
happen-Ordered (calls_dequeue zero) w r v = absurd (omega (arith, r))
happen-Ordered (calls_dequeue (suc zero)) w r (xs, v, order, others) =
    elim (Bool-cases (between_calls (w.pc 1))) [
      | inr busy ↦ rw busy (xs, v, order, others)
      | inl free ↦ rw free (
        xs,
        consumer_begins w.queue (w.pc 0) (w.pc 1) xs free v,
        order,
        λ i. move_others 1 i reads_head w.pc (omega arith) (others i),
      )
    ]
happen-Ordered (calls_dequeue (suc (suc i))) w r v = absurd (omega (arith, r))
happen-Ordered (accesses zero spurious) w r (xs, v, order, others) =
    let put = puts spurious w.queue (w.pc 0) in
    (
      xs ++ put,
      producer-Inv spurious w.queue (w.pc 0) (w.pc 1) xs v,
      rw
          (
            takes_none spurious w.queue (settled w.queue (w.pc 0) (w.pc 1)) xs (lag (w.pc 1))
                (w.pc 0) v.producing,
            append-nil,
          )
          (ap (λ ys. ys ++ put) order ∙ append_assoc w.taken xs put),
      λ i. move_others 0 i (access spurious w.queue (w.pc 0)).1 w.pc (omega arith) (others i),
    )
happen-Ordered (accesses (suc zero) spurious) w r (xs, v, order, others) =
    let (ys, split, v') = consumer-Takes spurious w.queue (w.pc 0) (w.pc 1) xs v in
    let got = takes spurious w.queue (w.pc 1) in
    (
      ys,
      v',
      rw
          (
            puts_none spurious w.queue (settled w.queue (w.pc 0) (w.pc 1)) xs (w.pc 1) v.consuming,
            append-nil,
          )
          (order ∙ ap (λ zs. w.taken ++ zs) split ∙ sym (append_assoc w.taken got ys)),
      λ i. move_others 1 i (access spurious w.queue (w.pc 1)).1 w.pc (omega arith) (others i),
    )
happen-Ordered (accesses (suc (suc i)) spurious) w r (xs, v, order, others) =
    rw (others i, access, (other_than i).0, (other_than i).1)
      (
        xs,
        v,
        rw (append-nil, append-nil) order,
        λ j. move_none (suc (suc i)) (suc (suc j)) w.pc (others j),
      )

Roles-cons : (e : Event) (es : List Event) → Roles (e ∷ es) → Roles (e ∷ []) × Roles es
Roles-cons (calls_enqueue thread task) es r = ((r.0, tt), r.1)
Roles-cons (calls_dequeue thread) es r = ((r.0, tt), r.1)
Roles-cons (accesses thread spurious) es r = (tt, r)

play-Ordered : (es : List Event) (w : World) → Roles es → Ordered w → Ordered (play es w)
unfolding play
play-Ordered [] w r v = v
play-Ordered (e ∷ es) w r v =
    let (first, rest) = Roles-cons e es r in
    play-Ordered es (happen e w) rest (happen-Ordered e w first v)

fresh-Ordered : (k : ℕ) → k ≤ 63 → Ordered (begins_with (fresh k))
fresh-Ordered k h =
    let v = fresh-Holds {A = ℕ} k h in
    (
      [],
      record {
        holds = v;
        head_at = omega arith;
        head_in = v.head_in;
        lagging = v.room;
        producing = tt;
        consuming = tt;
      },
      refl,
      λ i. refl,
    )

-- One producer and one consumer on a new queue of `2 ^ k` cells, their accesses interleaved in any
-- way: the tasks taken are the first ones that were put in, in their order, and the queue holds the
-- others once the stores that are due are made.
pub play_in_order :
    (k : ℕ) (es : List Event)
    → k ≤ 63
    → Roles es
    → let w = play es (begins_with (fresh k)) in
      (xs : List ℕ) × (w.put ≡ w.taken ++ xs) × Holds (settled w.queue (w.pc 0) (w.pc 1)) xs
play_in_order k es h r =
    let (xs, v, order, _) = play-Ordered es (begins_with (fresh k)) r (fresh-Ordered k h) in
    (xs, order, v.holds)
