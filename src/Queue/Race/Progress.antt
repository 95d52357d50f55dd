-- ===== src/Queue/Race/Progress.antt =====
-- A call ends after a fixed number of accesses of its thread, whatever the other threads do.
use Prim.Native.Nat.{bit_and}
use nexus_task.Prelude.{
  ℕ, ◌+◌, ◌-◌, ap, =ℕ_iff, ◌≤◌, ◌≡◌, refl, arith, Bool, true, false, Option, none, some, List, [],
  ◌∷◌, ◌=ℕ◌, if◌then◌else◌, Bool-cases, inl, inr,
}
use nexus_task.Queue.{Queue, slot, cas_null}
use nexus_task.Queue.Race.{
  Pc, idle, loads_head, loads_tail, exchanges, stores_tail, enqueued, reads_head, reads_tail,
  reads_slot, claims, stores_head, dequeued, access, World, Event, calls_enqueue, calls_dequeue,
  accesses, happen, play, between_calls, begin, cas_task, found_in,
}

-- How many accesses a call has left at most.
abbrev pub left : Pc → ℕ
left (loads_head task) = 4
left (loads_tail task head) = 3
left (exchanges task tail next_tail) = 2
left (stores_tail next_tail) = 1
left reads_head = 5
left (reads_tail head) = 4
left (reads_slot head) = 3
left (claims head task) = 2
left (stores_head next_head task) = 1
left _ = 0

found_in-left : (head : ℕ) (cell : Option ℕ) → left (found_in head cell) ≤ 2
found_in-left head none = omega arith
found_in-left head (some task) = omega arith

access-left : (spurious : Bool) (q : Queue ℕ) (p : Pc) → left (access spurious q p).1 ≤ left p - 1
unfolding access
access-left spurious q (loads_tail task head) = ground arith
access-left spurious q (exchanges task tail next_tail) =
    elim (Bool-cases (cas_null spurious (slot q tail))) [
      | inl e ↦ rw e (omega arith)
      | inr e ↦ rw e (omega arith)
    ]
access-left spurious q (reads_slot head) = found_in-left head (slot q (bit_and head q.mask))
access-left spurious q (claims head task) =
    elim (Bool-cases (cas_task spurious task (slot q (bit_and head q.mask)))) [
      | inl e ↦ rw e (omega arith)
      | inr e ↦ rw e (omega arith)
    ]
access-left spurious q (reads_tail head) = ground arith
access-left spurious q _ = omega arith

left_none : (p : Pc) → left p ≤ 0 → between_calls p ≡ true
left_none idle h = refl
left_none (enqueued done) h = refl
left_none (dequeued task) h = refl
left_none _ h = absurd (omega arith)

module _ (thread : ℕ) where
  -- The accesses that a schedule gives the thread, and the calls that it begins.
  abbrev pub turns : List Event → ℕ
  turns [] = 0
  turns (accesses i spurious ∷ es) = (if i =ℕ thread then 1 else 0) + turns es
  turns (_ ∷ es) = turns es

  abbrev pub calls : List Event → ℕ
  calls [] = 0
  calls (accesses i spurious ∷ es) = calls es
  calls (calls_enqueue i task ∷ es) = (if i =ℕ thread then 1 else 0) + calls es
  calls (calls_dequeue i ∷ es) = (if i =ℕ thread then 1 else 0) + calls es

  begin_other :
      (i : ℕ) (p : Pc) (w : World) → (i =ℕ thread) ≡ false → (begin i p w).pc thread ≡ w.pc thread
  begin_other i p w other = elim (Bool-cases (between_calls (w.pc i))) [
    | inl e ↦ rw e (rw other refl)
    | inr e ↦ rw e refl
  ]

  happen-left :
      (e : Event) (w : World)
      → calls (e ∷ []) ≡ 0
      → left ((happen e w).pc thread) ≤ left (w.pc thread) - turns (e ∷ [])
  unfolding happen
  happen-left (accesses i spurious) w quiet = elim (Bool-cases (i =ℕ thread)) [
    | inr other ↦ rw other (omega arith)
    | inl own ↦
        let here : w.pc i ≡ w.pc thread = ap w.pc ((=ℕ_iff i thread).0 own) in
        rw own (rw here (omega (arith, access-left spurious w.queue (w.pc thread))))
  ]
  happen-left (calls_enqueue i task) w quiet = elim (Bool-cases (i =ℕ thread)) [
    | inl own ↦ absurd (ground (arith, own, quiet))
    | inr other ↦ rw (begin_other i (loads_head task) w other) (omega arith)
  ]
  happen-left (calls_dequeue i) w quiet = elim (Bool-cases (i =ℕ thread)) [
    | inl own ↦ absurd (ground (arith, own, quiet))
    | inr other ↦ rw (begin_other i reads_head w other) (omega arith)
  ]

  calls-cons : (e : Event) (es : List Event) → calls (e ∷ es) ≡ calls (e ∷ []) + calls es
  calls-cons (accesses i spurious) es = omega arith
  calls-cons (calls_enqueue i task) es = omega arith
  calls-cons (calls_dequeue i) es = omega arith

  turns-cons : (e : Event) (es : List Event) → turns (e ∷ es) ≡ turns (e ∷ []) + turns es
  turns-cons (accesses i spurious) es = omega arith
  turns-cons (calls_enqueue i task) es = omega arith
  turns-cons (calls_dequeue i) es = omega arith

  play-left :
      (es : List Event) (w : World)
      → calls es ≡ 0
      → left ((play es w).pc thread) ≤ left (w.pc thread) - turns es
  unfolding play
  play-left [] w quiet = omega arith
  play-left (e ∷ es) w quiet = omega (
    arith,
    calls-cons e es,
    turns-cons e es,
    happen-left e w (omega (arith, quiet, calls-cons e es)),
    play-left es (happen e w) (omega (arith, quiet, calls-cons e es)),
  )

  left_at_most : (p : Pc) → left p ≤ 5
  left_at_most p = ground arith

  -- In every schedule that gives a thread five accesses and in which it begins no other call, the
  -- call that it is in has ended: no other thread can hold it up.
  pub call_ends :
      (es : List Event) (w : World)
      → calls es ≡ 0
      → 5 ≤ turns es
      → between_calls ((play es w).pc thread) ≡ true
  call_ends es w quiet enough =
      left_none ((play es w).pc thread)
        (omega (arith, play-left es w quiet, left_at_most (w.pc thread)))
