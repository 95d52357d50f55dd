-- ===== src/Scheduler.antt =====
-- include/task_engine/task_scheduler.hpp: TaskScheduler, delayed and periodic submissions. A time is
-- a number of nanoseconds, a delay or an interval one of milliseconds. A function of the client is
-- an element of `F`. The priority queue is the list of its members; of members with equal times,
-- whose order the library leaves open, the first is the top.
mod Tests
pub mod Due
use nexus_task.Prelude.{
  ℕ, zero, suc, ◌+◌, ◌*◌, Bool, true, false, not, ◌||◌, Option, none, some, List, [], ◌∷◌, ◌++◌,
  if◌then◌else◌, ltb, leb, ◌=ℕ◌, ◌==◌, length, string_eq, String, to_string, join, add64,
}
use nexus_task.Task.{TaskOptions}

pub record ScheduledTask (F : Type 0) : Type 0 where
  pub func : F
  pub name : String
  pub options : TaskOptions
  pub scheduled_time : ℕ
  pub interval : ℕ
  pub id : ℕ

pub record Scheduler (F : Type 0) : Type 0 where
  pub running : Bool
  pub scheduled_tasks : List (ScheduledTask F)
  pub next_id : ℕ

-- The number in a name that is made up, and then the id, are taken from `next_id`.
abbrev pub named : String → String → ℕ → String × ℕ
named given prefix next =
    if given == "" then (join prefix (to_string next), add64 next 1) else (given, next)

module _ {F : Type 0} where
  unfoldable pub push : ScheduledTask F → List (ScheduledTask F) → List (ScheduledTask F)
  push t q = q ++ t ∷ []

  -- `top` and `pop`, by `ScheduledTaskComparator`.
  unfoldable pub pop : List (ScheduledTask F) → Option (ScheduledTask F × List (ScheduledTask F))
  pop [] = none
  pop (t ∷ ts) = elim (pop ts) [
    | none ↦ some (t, [])
    | some (u, rest) ↦
        if ltb u.scheduled_time t.scheduled_time then some (u, t ∷ rest) else some (t, ts)
  ]

  unfoldable pub schedule_at : F → ℕ → String → TaskOptions → Scheduler F → Scheduler F × ℕ
  unfolding push
  schedule_at func when given options s =
      let (name, id) = named given "ScheduledTask_" s.next_id in
      let t : ScheduledTask F = record {
        func = func;
        name = name;
        options = options;
        scheduled_time = when;
        interval = 0;
        id = id;
      } in
      (record s { scheduled_tasks = push t s.scheduled_tasks; next_id = add64 id 1 }, id)

  unfoldable pub schedule_after : ℕ → F → ℕ → String → TaskOptions → Scheduler F → Scheduler F × ℕ
  schedule_after now func delay given options s =
      schedule_at func (now + 1000000 * delay) given options s

  unfoldable pub schedule_periodic :
      ℕ → F → ℕ → String → TaskOptions → Scheduler F → Scheduler F × ℕ
  unfolding push
  schedule_periodic now func interval given options s =
      let (name, id) = named given "PeriodicTask_" s.next_id in
      let t : ScheduledTask F = record {
        func = func;
        name = name;
        options = options;
        scheduled_time = now + 1000000 * interval;
        interval = interval;
        id = id;
      } in
      (record s { scheduled_tasks = push t s.scheduled_tasks; next_id = add64 id 1 }, id)

  -- The loop of `cancel`: what is left, `temp` and `found`; `none` if the fuel ends first.
  unfoldable pub rebuild :
      ℕ
      → ℕ
      → List (ScheduledTask F)
      → List (ScheduledTask F)
      → Bool
      → Option (List (ScheduledTask F) × Bool)
  rebuild zero id q temp found = elim (pop q) [ none ↦ some (temp, found) | some _ ↦ none ]
  rebuild (suc fuel) id q temp found = elim (pop q) [
    | none ↦ some (temp, found)
    | some (t, rest) ↦
        let same = t.id =ℕ id in
        rebuild fuel id rest (if same then temp else push t temp) (if same then true else found)
  ]

  -- `cancel`, with as many rounds as there are tasks.
  unfoldable pub cancel : ℕ → Scheduler F → Option (Scheduler F × Bool)
  cancel id s = elim (rebuild (length s.scheduled_tasks) id s.scheduled_tasks [] false) [
    | none ↦ none
    | some (temp, found) ↦ some (record s { scheduled_tasks = temp }, found)
  ]

  unfoldable pub start : Scheduler F → Scheduler F
  start s = record s { running = true }

  unfoldable pub stop : Scheduler F → Scheduler F
  stop s = record s { running = false }

  -- A round of `scheduler_loop` up to the release of the lock: the task to submit, if one is due.
  unfoldable pub take_due : ℕ → Scheduler F → Scheduler F × Option (ScheduledTask F)
  take_due now s = elim (pop s.scheduled_tasks) [
    | none ↦ (s, none)
    | some (t, rest) ↦
        if leb t.scheduled_time now
        then (record s { scheduled_tasks = rest }, some t)
        else (s, none)
  ]

  -- The rest of the round, after the submission: a periodic task is pushed again.
  unfoldable pub reschedule : ℕ → ScheduledTask F → Scheduler F → Scheduler F
  reschedule now t s =
      if ltb 0 t.interval
      then record s {
        scheduled_tasks =
            push (record t { scheduled_time = now + 1000000 * t.interval }) s.scheduled_tasks;
      }
      else s
