-- ===== src/Queue/Race/Tests.antt =====
-- Schedules of a few threads on a queue of four cells: the theorems at them.
use nexus_task.Prelude.{ℕ, ◌≡◌, refl, true, false, List, [], ◌∷◌, ◌++◌, arith}
use nexus_task.Queue.Cells.{Holds, fresh}
use nexus_task.Queue.Race.{
  Event, calls_enqueue, calls_dequeue, accesses, play, happen, begins_with, between_calls,
}
use nexus_task.Queue.Race.Range.{fresh-AllFit}
use nexus_task.Queue.Race.Conserve.{Balanced, play-Balanced}
use nexus_task.Queue.Race.Progress.{call_ends}
use nexus_task.Queue.Race.Single.{settled}
use nexus_task.Queue.Race.Order.{play_in_order}
use nexus_task.Queue.Race.Stalled.{stalled}

-- A producer and a consumer take turns.
abbrev taking_turns : List Event
taking_turns =
    calls_enqueue 0 7
    ∷ calls_dequeue 1
    ∷ accesses 0 false
    ∷ accesses 1 false
    ∷ accesses 0 false
    ∷ accesses 0 false
    ∷ accesses 0 false
    ∷ accesses 1 false
    ∷ accesses 1 false
    ∷ accesses 1 true
    ∷ calls_dequeue 1
    ∷ accesses 1 false
    ∷ accesses 1 false
    ∷ accesses 1 false
    ∷ accesses 1 false
    ∷ calls_enqueue 0 8
    ∷ accesses 0 false
    ∷ accesses 1 false
    ∷ accesses 0 false
    ∷ accesses 0 false
    ∷ []

turns_taken :
    ((play taking_turns (begins_with (fresh 2))).put ≡ 7 ∷ 8 ∷ [])
    × ((play taking_turns (begins_with (fresh 2))).taken ≡ 7 ∷ [])
unfolding play happen
turns_taken = (refl, refl)

play-Balanced_example : Balanced (play (stalled 3 4 5) (begins_with (fresh 2)))
play-Balanced_example =
    play-Balanced (stalled 3 4 5) (begins_with (fresh 2)) (fresh-AllFit 2 (omega arith)) (λ a. refl)

play_in_order_example :
    let w = play taking_turns (begins_with (fresh 2)) in
    (xs : List ℕ) × (w.put ≡ w.taken ++ xs) × Holds (settled w.queue (w.pc 0) (w.pc 1)) xs
play_in_order_example = play_in_order 2 taking_turns (omega arith) (omega arith)

call_ends_example :
    between_calls (
      (play
          (accesses 1 false
            ∷ accesses 0 false
            ∷ accesses 1 false
            ∷ accesses 1 true
            ∷ accesses 1 false
            ∷ accesses 1 false
            ∷ [])
          (play (calls_enqueue 0 7 ∷ calls_dequeue 1 ∷ []) (begins_with (fresh 2)))).pc
        1)
    ≡ true
call_ends_example =
    call_ends 1
      (accesses 1 false
        ∷ accesses 0 false
        ∷ accesses 1 false
        ∷ accesses 1 true
        ∷ accesses 1 false
        ∷ accesses 1 false
        ∷ [])
      (play (calls_enqueue 0 7 ∷ calls_dequeue 1 ∷ []) (begins_with (fresh 2))) refl (omega arith)
