-- ===== src/Queue/Tests.antt =====
-- LockFreeTaskQueue on a buffer of four cells: runs of its operations, and the theorems at them.
use nexus_task.Prelude.{ℕ, ◌≡◌, refl, Bool, true, false, some, List, [], ◌∷◌, arith}
use nexus_task.Queue.{Queue, is_full}
use nexus_task.Queue.Cells.{Holds, fresh, fresh-Holds, is_full-Holds, pushed, try_enqueue_room}
use nexus_task.Queue.Fifo.{
  enqueue, dequeue, Call, accepted, taken, serve, run, run_refines, push, pop,
}
use nexus_task.Queue.Wait.{
  Round, wait_enqueue_until, wait_dequeue_until, wait_enqueue_for, wait_dequeue_for, wait_push,
  wait_enqueue_until_lem,
}

abbrev four : Queue ℕ
four = fresh 2

four-Holds : Holds four []
four-Holds = fresh-Holds 2 (omega arith)

abbrev calls : List (Call ℕ)
calls =
    enqueue false 10
    ∷ enqueue true 11
    ∷ enqueue false 12
    ∷ dequeue false
    ∷ enqueue false 13
    ∷ enqueue false 14
    ∷ enqueue false 15
    ∷ dequeue false
    ∷ []

calls_served :
    (serve 3 [] calls).1
    ≡ accepted true
      ∷ accepted false
      ∷ accepted true
      ∷ taken (some 10)
      ∷ accepted true
      ∷ accepted true
      ∷ accepted false
      ∷ taken (some 12)
      ∷ []
unfolding serve push pop
calls_served = refl

run_refines_example :
    ((run four calls).1 ≡ (serve 3 [] calls).1) × Holds (run four calls).0 (serve 3 [] calls).0
run_refines_example = run_refines 3 calls four [] refl four-Holds

one_held : Holds (pushed four [] four-Holds 10) (10 ∷ [])
one_held = (try_enqueue_room four [] four-Holds 10 (omega arith)).1

is_full-Holds_example : is_full (pushed four [] four-Holds 10) ≡ false
is_full-Holds_example = is_full-Holds (pushed four [] four-Holds 10) (10 ∷ []) one_held

-- The buffer is full at the first attempt, and another thread takes a task before the second.
abbrev rounds : List (Round ℕ)
rounds =
    record {
      others = enqueue false 1 ∷ enqueue false 2 ∷ enqueue false 3 ∷ [];
      now = 100;
      spurious = false;
    }
    ∷ record { others = dequeue false ∷ []; now = 101; spurious = false }
    ∷ record { others = []; now = 120; spurious = false }
    ∷ []

wait_pushed : wait_push 3 7 110 rounds [] ≡ some (2 ∷ 3 ∷ 7 ∷ [], true)
unfolding wait_push serve push pop
wait_pushed = refl

wait_enqueue_until_lem_example :
    (q' : Queue ℕ) × (xs' : List ℕ) × (done : Bool) × (wait_enqueue_until 7 110 rounds four
      ≡ some (q', done))
    × (wait_push 3 7 110 rounds [] ≡ some (xs', done))
    × Holds q' xs'
wait_enqueue_until_lem_example =
    wait_enqueue_until_lem 3 7 110 rounds four [] refl four-Holds (omega arith)

-- `wait_enqueue_for` and `wait_dequeue_for` wait until the sum.
wait_for_sum :
    (wait_enqueue_for 7 90 20 rounds four ≡ wait_enqueue_until 7 110 rounds four)
    × (wait_dequeue_for 90 20 rounds four ≡ wait_dequeue_until 110 rounds four)
unfolding wait_enqueue_for wait_dequeue_for
wait_for_sum = (refl, refl)
