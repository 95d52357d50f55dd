-- ===== src/Monitor/Extrema.antt =====
-- The loops on the peak and on the longest and shortest time.
use nexus_task.Prelude.{ℕ, ◌+◌, ◌%◌, ◌≤◌, ◌<◌, ◌≡◌, List, [], ◌∷◌, word, pos, arith, max, min}
use native.Mathlib.Nat.{mod-eq_of_lt}
use nexus_task.Monitor.{Metrics, initial, max_word, raise_to, record_completion}

-- The cell's value when the loop ends: what the last failed exchange found.
abbrev pub last_seen : List ℕ → ℕ → ℕ
last_seen [] current = current
last_seen (found ∷ seen) current = last_seen seen found

-- An exchange fails because another thread changed the cell, and the cell only grows: each value
-- is at least the one before.
abbrev pub Rising : ℕ → List ℕ → Type 0
Rising current [] = Unit
Rising current (found ∷ seen) = (current ≤ found) × Rising found seen

Rising-last : (current : ℕ) (seen : List ℕ) → Rising current seen → current ≤ last_seen seen current
Rising-last current [] h = omega arith
Rising-last current (found ∷ seen) h = omega (arith, Rising-last found seen h.1)

-- If the other threads only raise the cell, the loop leaves it at no less than the value and than
-- what it was, and at no more than the larger of the value and what the others wrote.
pub raise_to-bounds :
    (seen : List ℕ) (value current : ℕ)
    → Rising current seen
    → (value ≤ raise_to seen value current)
      × (current ≤ raise_to seen value current)
      × (raise_to seen value current ≤ max value (last_seen seen current))
unfolding raise_to
raise_to-bounds [] value current h = ground arith
raise_to-bounds (found ∷ seen) value current h =
    ground (arith, h.0, Rising-last found seen h.1, raise_to-bounds seen value found h.1)

-- The completions of a run, with the times that they record.
pub complete_all : List ℕ → Metrics → Metrics
complete_all [] m = m
complete_all (t ∷ ts) m = complete_all ts (record_completion [] [] (pos t) m)

abbrev pub AllWords : List ℕ → Type 0
AllWords [] = Unit
AllWords (t ∷ ts) = (t < word) × AllWords ts

pub longest : List ℕ → ℕ
longest [] = 0
longest (t ∷ ts) = max t (longest ts)

pub shortest : List ℕ → ℕ
shortest [] = max_word
shortest (t ∷ ts) = min t (shortest ts)

pub total : List ℕ → ℕ
total [] = 0
total (t ∷ ts) = t + total ts

shortest-le : (ts : List ℕ) → shortest ts ≤ max_word
unfolding shortest
shortest-le [] = omega arith
shortest-le (t ∷ ts) = omega (arith, shortest-le ts)

completion-extrema :
    (m : Metrics) (t : ℕ)
    → t < word
    → ((record_completion [] [] (pos t) m).max_execution_time_us ≡ max m.max_execution_time_us t)
      × ((record_completion [] [] (pos t) m).min_execution_time_us ≡ min m.min_execution_time_us t)
      × ((record_completion [] [] (pos t) m).total_execution_time_us % word
          ≡ (m.total_execution_time_us + t) % word)
unfolding record_completion
completion-extrema m t h =
    (ground (arith, mod-eq_of_lt h), ground (arith, mod-eq_of_lt h), ground (arith, mod-eq_of_lt h))

complete_all-from :
    (ts : List ℕ) (m : Metrics)
    → AllWords ts
    → m.min_execution_time_us ≤ max_word
    → ((complete_all ts m).max_execution_time_us ≡ max m.max_execution_time_us (longest ts))
      × ((complete_all ts m).min_execution_time_us ≡ min m.min_execution_time_us (shortest ts))
      × ((complete_all ts m).total_execution_time_us % word
          ≡ (m.total_execution_time_us + total ts) % word)
unfolding complete_all longest shortest total
complete_all-from [] m h lo = omega arith
complete_all-from (t ∷ ts) m h lo =
    let (hi, lo', sum) =
      complete_all-from ts (record_completion [] [] (pos t) m) h.1
        (omega (arith, (completion-extrema m t h.0).1)) in
    omega (arith, completion-extrema m t h.0, hi, lo', sum)

-- After any completions the extrema are the longest and the shortest time recorded, and the total
-- is their sum modulo 2^64.
pub complete_all-extrema :
    (ts : List ℕ)
    → AllWords ts
    → ((complete_all ts initial).max_execution_time_us ≡ longest ts)
      × ((complete_all ts initial).min_execution_time_us ≡ shortest ts)
      × ((complete_all ts initial).total_execution_time_us % word ≡ total ts % word)
complete_all-extrema ts h =
    omega (arith, complete_all-from ts initial h (omega arith), shortest-le ts)
