-- ===== src/Monitor/Tests.antt =====
-- PerformanceMonitor on short histories: the theorems at them.
use nexus_task.Prelude.{◌+◌, ◌≡◌, refl, List, [], ◌∷◌, pos, arith}
use nexus_task.Monitor.{initial}
use nexus_task.Monitor.Accounts.{
  Event, submission, start, failure, retry, completion, queue_wait, replay, replay-inflight,
  highest, starts, ends,
}

-- Two runs at once; one fails and is tried again.
abbrev events : List Event
events =
    submission
    ∷ submission
    ∷ start
    ∷ queue_wait 3
    ∷ start
    ∷ failure
    ∷ retry
    ∷ completion (pos 40)
    ∷ start
    ∷ completion (pos 10)
    ∷ []

events-highest : highest 0 events ≡ 2
unfolding highest
events-highest = refl

replay-inflight_example :
    ((replay events initial).inflight_tasks + ends events ≡ starts events)
    × ((replay events initial).peak_inflight ≡ highest 0 events)
replay-inflight_example =
    replay-inflight events (omega arith) (omega arith, (omega arith, (omega arith, tt)))
