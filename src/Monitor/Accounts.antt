-- ===== src/Monitor/Accounts.antt =====
-- The counters over a history: what `inflight_tasks` and `peak_inflight` say.
use nexus_task.Prelude.{ℕ, ◌+◌, ◌-◌, ◌<◌, ◌≡◌, refl, List, [], ◌∷◌, word, ℤ, arith, max}
use native.Mathlib.Nat.{mod-eq_of_lt}
use nexus_task.Monitor.{
  Metrics, initial, record_start, record_completion, record_failure, record_submission,
  record_retry, record_cancellation, record_queue_wait,
}

pub data Event : Type 0 where
  submission start failure retry cancellation : Event
  completion : ℤ → Event
  queue_wait : ℕ → Event

pub apply : Event → Metrics → Metrics
unfolding record_start record_completion record_failure record_submission record_retry
    record_cancellation record_queue_wait
apply submission = record_submission
apply start = record_start []
apply failure = record_failure
apply retry = record_retry
apply cancellation = record_cancellation
apply (completion t) = record_completion [] [] t
apply (queue_wait t) = record_queue_wait t

pub replay : List Event → Metrics → Metrics
replay [] m = m
replay (e ∷ es) m = replay es (apply e m)

abbrev pub starts : List Event → ℕ
starts [] = 0
starts (start ∷ es) = starts es + 1
starts (_ ∷ es) = starts es

-- The runs that have ended, by completion or failure.
abbrev pub ends : List Event → ℕ
ends [] = 0
ends (failure ∷ es) = ends es + 1
ends (completion t ∷ es) = ends es + 1
ends (_ ∷ es) = ends es

-- Starting with `open_runs` runs, no run ends before it starts.
abbrev pub Proper : ℕ → List Event → Type 0
Proper open_runs [] = Unit
Proper open_runs (start ∷ es) = Proper (open_runs + 1) es
Proper open_runs (failure ∷ es) = (0 < open_runs) × Proper (open_runs - 1) es
Proper open_runs (completion t ∷ es) = (0 < open_runs) × Proper (open_runs - 1) es
Proper open_runs (_ ∷ es) = Proper open_runs es

-- The most runs open at once, after a start.
unfoldable pub highest : ℕ → List Event → ℕ
highest open_runs [] = 0
highest open_runs (start ∷ es) = max (open_runs + 1) (highest (open_runs + 1) es)
highest open_runs (failure ∷ es) = highest (open_runs - 1) es
highest open_runs (completion t ∷ es) = highest (open_runs - 1) es
highest open_runs (_ ∷ es) = highest open_runs es

start-counts :
    (m : Metrics)
    → m.inflight_tasks + 1 < word
    → ((record_start [] m).inflight_tasks ≡ m.inflight_tasks + 1)
      × ((record_start [] m).peak_inflight ≡ max m.peak_inflight (m.inflight_tasks + 1))
unfolding record_start
start-counts m h = (omega arith, ground (arith, mod-eq_of_lt h))

failure-counts :
    (m : Metrics)
    → 0 < m.inflight_tasks
    → m.inflight_tasks < word
    → ((record_failure m).inflight_tasks ≡ m.inflight_tasks - 1)
      × ((record_failure m).peak_inflight ≡ m.peak_inflight)
unfolding record_failure
failure-counts m h w = omega arith

completion-counts :
    (m : Metrics) (t : ℤ)
    → 0 < m.inflight_tasks
    → m.inflight_tasks < word
    → ((record_completion [] [] t m).inflight_tasks ≡ m.inflight_tasks - 1)
      × ((record_completion [] [] t m).peak_inflight ≡ m.peak_inflight)
unfolding record_completion
completion-counts m t h w = omega arith

replay-inflight_from :
    (es : List Event) (n : ℕ) (m : Metrics)
    → m.inflight_tasks ≡ n
    → n + starts es < word
    → Proper n es
    → ((replay es m).inflight_tasks + ends es ≡ n + starts es)
      × ((replay es m).peak_inflight ≡ max m.peak_inflight (highest n es))
unfolding replay apply highest
replay-inflight_from [] n m e w h = omega arith
replay-inflight_from (submission ∷ es) n m e w h = replay-inflight_from es n _ e w h
replay-inflight_from (retry ∷ es) n m e w h = replay-inflight_from es n _ e w h
replay-inflight_from (cancellation ∷ es) n m e w h = replay-inflight_from es n _ e w h
replay-inflight_from (queue_wait t ∷ es) n m e w h = replay-inflight_from es n _ e w h
replay-inflight_from (start ∷ es) n m e w h =
    let (i, p) = start-counts m (omega arith) in
    omega (
      arith,
      i,
      p,
      replay-inflight_from es (n + 1) (record_start [] m) (omega arith) (omega arith) h,
    )
replay-inflight_from (failure ∷ es) n m e w h =
    let (i, p) = failure-counts m (omega arith) (omega arith) in
    omega (
      arith,
      i,
      p,
      replay-inflight_from es (n - 1) (record_failure m) (omega arith) (omega arith) h.1,
    )
replay-inflight_from (completion t ∷ es) n m e w h =
    let (i, p) = completion-counts m t (omega arith) (omega arith) in
    omega (
      arith,
      i,
      p,
      replay-inflight_from es (n - 1) (record_completion [] [] t m) (omega arith) (omega arith) h.1,
    )

-- In a history of fewer than 2^64 starts where no run ends before it starts, `inflight_tasks` is
-- the number of runs that have started and not ended, and `peak_inflight` the highest that this
-- number has been.
pub replay-inflight :
    (es : List Event)
    → starts es < word
    → Proper 0 es
    → ((replay es initial).inflight_tasks + ends es ≡ starts es)
      × ((replay es initial).peak_inflight ≡ highest 0 es)
replay-inflight es w h = omega (arith, replay-inflight_from es 0 initial refl (omega arith) h)
