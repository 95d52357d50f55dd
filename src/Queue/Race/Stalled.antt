-- ===== src/Queue/Race/Stalled.antt =====
-- A producer that stalls between its load of the tail and its exchange.
use nexus_task.Prelude.{ℕ, ◌≡◌, refl, replicate, true, false, none, List, [], ◌∷◌, ◌++◌, =ℕ_iff}
use nexus_task.Queue.Cells.{fresh}
use nexus_task.Queue.Race.{
  Event, calls_enqueue, calls_dequeue, accesses, enqueued, dequeued, play, happen, begins_with,
}

abbrev turns : ℕ → ℕ → List Event
turns thread n = replicate n (accesses thread false)

-- Thread 0 stalls before its exchange. Thread 1 puts in `b`, thread 2 takes it out, thread 1 puts in
-- `c`, and then thread 0 goes on.
abbrev pub stalled : ℕ → ℕ → ℕ → List Event
stalled a b c =
    calls_enqueue 0 a ∷ turns 0 2
    ++ (calls_enqueue 1 b ∷ turns 1 4)
    ++ (calls_dequeue 2 ∷ turns 2 5)
    ++ (calls_enqueue 1 c ∷ turns 1 4)
    ++ turns 0 2

-- On a queue of four cells, whatever the tasks are, `try_enqueue` has answered true for `a`, `b` and
-- `c`, and `b` is out; yet a `try_dequeue` that nothing interrupts finds the queue empty.
pub stalled_loses :
    (a b c : ℕ)
    → let w = play (stalled a b c) (begins_with (fresh 2)) in
      let w' = play (calls_dequeue 2 ∷ turns 2 5) w in
      (w.put ≡ b ∷ c ∷ a ∷ [])
      × (w.taken ≡ b ∷ [])
      × (w.pc 0 ≡ enqueued true)
      × (w.pc 1 ≡ enqueued true)
      × (w'.pc 2 ≡ dequeued none)
unfolding play happen
stalled_loses a b c = rw ((=ℕ_iff b b).1 refl) (refl, refl, refl, refl, refl)
