-- ===== src/Group/Stats.antt =====
-- The statistics of a group.
use nexus_task.Prelude.{
  ℕ, ◌+◌, ◌<◌, ◌≡◌, ap₂, List, [], ◌∷◌, if◌then◌else◌, ◌=ℕ◌, length, add64, word, arith,
}
use nexus_task.Task.{TaskStatus, pending, ready, running, completed, failed, cancelled}
use nexus_task.Graph.{is_terminal}
use nexus_task.Executor.{Executor, get_task_status}
use nexus_task.Group.{TaskGroup, GroupStats, count_status, count_each, get_stats, all_completed}

-- The tasks counted, and those of them that have ended.
abbrev counted : GroupStats → ℕ
counted s =
    s.completed_tasks + s.failed_tasks + s.running_tasks + s.pending_tasks + s.cancelled_tasks

abbrev ended : GroupStats → ℕ
ended s = s.completed_tasks + s.failed_tasks + s.cancelled_tasks

abbrev none_counted : TaskGroup → GroupStats
none_counted g = record {
  total_tasks = length g.task_ids;
  completed_tasks = 0;
  failed_tasks = 0;
  running_tasks = 0;
  pending_tasks = 0;
  cancelled_tasks = 0;
}

count_status-counted :
    (status : TaskStatus) (s : GroupStats)
    → counted s + 1 < word
    → (counted (count_status status s) ≡ counted s + 1)
      × (ended (count_status status s) ≡ ended s + (if is_terminal status then 1 else 0))
      × ((count_status status s).total_tasks ≡ s.total_tasks)
unfolding count_status is_terminal
count_status-counted pending s h = omega arith
count_status-counted ready s h = omega arith
count_status-counted running s h = omega arith
count_status-counted completed s h = omega arith
count_status-counted failed s h = omega arith
count_status-counted cancelled s h = omega arith

module _ {S R : Type 0} (x : Executor S R) where
  -- How many of the tasks have ended.
  abbrev pub terminal : List ℕ → ℕ
  terminal [] = 0
  terminal (id ∷ ids) = (if is_terminal (get_task_status id x) then 1 else 0) + terminal ids

  count_each-counted :
      (ids : List ℕ) (s : GroupStats)
      → counted s + length ids < word
      → (counted (count_each ids x s) ≡ counted s + length ids)
        × (ended (count_each ids x s) ≡ ended s + terminal ids)
        × ((count_each ids x s).total_tasks ≡ s.total_tasks)
  unfolding count_each
  count_each-counted [] s h = omega arith
  count_each-counted (id ∷ ids) s h =
      let one = count_status-counted (get_task_status id x) s (omega (arith, h)) in
      omega (
        arith,
        one,
        count_each-counted ids (count_status (get_task_status id x) s) (omega (arith, h, one)),
      )

  -- The statistics put each task of the group into one class, and `all_completed` answers whether
  -- every task of the group has ended, in a group of fewer than 2^64 - 1 tasks.
  pub get_stats-total :
      (g : TaskGroup)
      → length g.task_ids + 1 < word
      → let s = get_stats g x in
        (s.completed_tasks + s.failed_tasks + s.running_tasks + s.pending_tasks + s.cancelled_tasks
          ≡ length g.task_ids)
        × (s.total_tasks ≡ length g.task_ids)
        × (all_completed g x ≡ (terminal g.task_ids =ℕ length g.task_ids))
  unfolding get_stats all_completed
  get_stats-total g h =
      let s = get_stats g x in
      let (all, over, kept) = count_each-counted g.task_ids (none_counted g) (omega (arith, h)) in
      (
        omega (arith, all),
        kept,
        ap₂ (λ a b. a =ℕ b)
            (let sum : add64 (add64 s.completed_tasks s.failed_tasks) s.cancelled_tasks
                  ≡ terminal g.task_ids =
                omega (arith, all, over, h) in
              sum)
            kept,
      )
