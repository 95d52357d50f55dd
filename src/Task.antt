-- ===== src/Task.antt =====
-- include/task_engine/task.hpp: the task. The clock is an argument of each call that reads it. A time
-- is a number of nanoseconds, a timeout one of microseconds. What `func_` does is an argument of
-- `execute`.
mod Tests
pub mod Life
use nexus_task.Prelude.{
  ℕ, zero, suc, ◌+◌, ◌-◌, ◌*◌, ◌/◌, ◌≤◌, ◌<◌, ◌≡◌, refl, Bool, true, false, not, ◌&&◌, ◌||◌, Option,
  none, some, List, [], ◌∷◌, ◌++◌, ltb, leb, ◌=ℕ◌, if◌then◌else◌, word, add64, sub64, ℤ, pos,
  negsuc, succ_ℤ, pred_ℤ, is_zero, String, to_string, join, ◌==◌, lookup, insert, string_eq,
}

pub data TaskStatus : Type 0 where
  pending ready running completed failed cancelled : TaskStatus

pub data TaskPriority : Type 0 where
  low normal high critical : TaskPriority

pub record TaskOptions : Type 0 where
  pub priority : TaskPriority
  pub max_retries : ℕ
  pub timeout : ℕ
  pub deadline : Option ℕ
  pub category : String
  pub track_metrics : Bool

-- A `Task*` is a number, the address of the task. `func_` and `callback_` are code of the client
-- and of the executor, and stand with their callers.
pub record Task : Type 0 where
  pub id : ℕ
  pub name : String
  pub status : TaskStatus
  pub dependencies : List ℕ
  pub dependents : List ℕ
  pub dependencies_count : ℤ
  pub options : TaskOptions
  pub metadata : List (String × String)
  pub is_cancelled : Bool
  pub enqueued : Bool
  pub attempts : ℕ
  pub created_time : ℕ
  pub start_time : Option ℕ
  pub end_time : Option ℕ
  pub last_scheduled_time : Option ℕ

-- The constructor, with the name that it makes up in place of an empty one.
unfoldable pub create : ℕ → String → TaskOptions → ℕ → Task
create id name options now = record {
  id = id;
  name = if name == "" then join "Task_" (to_string id) else name;
  status = pending;
  dependencies = [];
  dependents = [];
  dependencies_count = pos 0;
  options = options;
  metadata = [];
  is_cancelled = false;
  enqueued = false;
  attempts = 0;
  created_time = now;
  start_time = none;
  end_time = none;
  last_scheduled_time = none;
}

-- What a piece of code that may throw ends with.
pub data Exception : Type 0 where
  cancelled_before deadline_exceeded timeout_exceeded promise_already_satisfied : Exception
  pool_shutdown missing_executor null_executor : Exception
  thrown : ℕ → Exception

pub data Outcome {ℓ} (A : Type ℓ) : Type ℓ where
  returns : A → Outcome A
  throws : Exception → Outcome A

unfoldable pub status_eq : TaskStatus → TaskStatus → Bool
status_eq pending pending = true
status_eq ready ready = true
status_eq running running = true
status_eq completed completed = true
status_eq failed failed = true
status_eq cancelled cancelled = true
status_eq _ _ = false

-- `deadline && now > *deadline`
unfoldable pub past : Option ℕ → ℕ → Bool
past none now = false
past (some deadline) now = ltb deadline now

-- `execute` as far as the call of `func_`: `none` if that is made. `now` is the reading for
-- `start_time_`, `checked` the one for the deadline, `caught` the one of the handler.
unfoldable pub begin_execute : ℕ → ℕ → ℕ → Task → Task × Option Exception
unfolding past
begin_execute now checked caught t =
    if t.is_cancelled
    then (record t { status = cancelled }, some cancelled_before)
    else let started = record t {
      status = running;
      start_time = some now;
      attempts = add64 t.attempts 1;
      last_scheduled_time = some now;
    } in
      if past t.options.deadline checked
      then (record started { status = failed; end_time = some caught }, some deadline_exceeded)
      else (started, none)

-- `finished - *start_time_`, in nanoseconds.
unfoldable pub elapsed : Option ℕ → ℕ → ℕ
elapsed none finished = 0
elapsed (some start) finished = finished - start

-- `execute` from the return of `func_` on. A timeout is a number of microseconds.
unfoldable pub finish_execute {ℓ} : {A : Type ℓ} → ℕ → ℕ → Outcome A → Task → Task × Outcome A
unfolding elapsed
finish_execute finished caught (throws e) t =
    (record t { status = failed; end_time = some caught }, throws e)
finish_execute finished caught (returns result) t =
    if ltb 0 t.options.timeout && ltb (1000 * t.options.timeout) (elapsed t.start_time finished)
    then (record t { status = failed; end_time = some caught }, throws timeout_exceeded)
    else (record t { status = completed; end_time = some finished }, returns result)

-- The clock readings of one run of `execute`, in the order of the code.
pub record Readings : Type 0 where
  pub started : ℕ
  pub checked : ℕ
  pub finished : ℕ
  pub caught : ℕ

-- `execute`, where nothing else touches the task while `func_` runs.
unfoldable pub execute {ℓ} : {A : Type ℓ} → Readings → Outcome A → Task → Task × Outcome A
unfolding begin_execute finish_execute
execute r outcome t =
    let (t', stop) = begin_execute r.started r.checked r.caught t in
    elim stop [ some e ↦ (t', throws e) | none ↦ finish_execute r.finished r.caught outcome t' ]

-- `add_dependency` writes to this task and to the dependency, which may be the same object.
unfoldable pub push_dependency : ℕ → Task → Task
push_dependency dependency t = record t { dependencies = t.dependencies ++ dependency ∷ [] }

unfoldable pub push_dependent : ℕ → Task → Task
push_dependent dependent t = record t { dependents = t.dependents ++ dependent ∷ [] }

unfoldable pub count_dependency : Task → Task
count_dependency t = record t { dependencies_count = succ_ℤ t.dependencies_count }

unfoldable pub notify_dependency_completed : Task → Task
notify_dependency_completed t =
    let remaining = pred_ℤ t.dependencies_count in
    record t {
      dependencies_count = remaining;
      status = if is_zero remaining then ready else t.status;
    }

unfoldable pub is_ready : Task → Bool
unfolding status_eq
is_ready t =
    is_zero t.dependencies_count
    && (status_eq t.status pending || status_eq t.status ready)
    && not t.enqueued

unfoldable pub try_mark_enqueued : Task → Task × Bool
try_mark_enqueued t = if t.enqueued then (t, false) else (record t { enqueued = true }, true)

unfoldable pub clear_enqueued_flag : Task → Task
clear_enqueued_flag t = record t { enqueued = false }

unfoldable pub can_retry : Task → Bool
can_retry t =
    if t.is_cancelled
    then false
    else if t.options.max_retries =ℕ 0
    then false
    else let retries_used = if ltb 0 t.attempts then sub64 t.attempts 1 else 0 in
      ltb retries_used t.options.max_retries

unfoldable pub cancel : Task → Task × Bool
cancel t =
    if t.is_cancelled
    then (t, false)
    else (record t { is_cancelled = true; status = cancelled }, true)

-- A number of microseconds.
unfoldable pub execution_time : Task → ℕ
execution_time t = elim t.end_time [
  | none ↦ 0
  | some end ↦ elim t.start_time [ none ↦ 0 | some start ↦ (end - start) / 1000 ]
]

unfoldable pub set_priority : TaskPriority → Task → Task
set_priority p t = record t { options = record (t.options) { priority = p } }

unfoldable pub set_deadline : ℕ → Task → Task
set_deadline d t = record t { options = record (t.options) { deadline = some d } }

unfoldable pub set_timeout : ℕ → Task → Task
set_timeout d t = record t { options = record (t.options) { timeout = d } }

unfoldable pub deadline_passed : ℕ → Task → Bool
unfolding past
deadline_passed now t = past t.options.deadline now

unfoldable pub annotate : String → String → Task → Task
annotate key value t = record t { metadata = insert key value t.metadata }

unfoldable pub annotation : String → Task → Option String
annotation key t = lookup key t.metadata

unfoldable pub reset_for_retry : Task → Task
unfolding clear_enqueued_flag
reset_for_retry t =
    clear_enqueued_flag (record t { status = pending; start_time = none; end_time = none })
