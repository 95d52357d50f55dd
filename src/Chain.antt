-- ===== src/Chain.antt =====
-- include/task_engine/task_chain.hpp: TaskChain, over the executor. A step is a function from the
-- result before to what it returns or throws.
mod Tests
pub mod Links
pub mod Execution
use nexus_task.Prelude.{
  ℕ, zero, suc, ◌+◌, Bool, true, false, Option, none, some, List, [], ◌∷◌, ◌++◌, ◌==◌, ◌=ℕ◌,
  if◌then◌else◌, String, string_eq, to_string, join,
}
use nexus_task.Task.{TaskOptions, normal, Outcome, returns, throws}
use nexus_task.WorkPool.{WorkPool}
use nexus_task.Executor.{Executor, submit, submit_with_dependencies}

pub record TaskChain (R : Type 0) : Type 0 where
  pub steps : List ((R → Outcome R) × String)

-- `TaskOptions{}`
abbrev pub default_options : TaskOptions
default_options = record {
  priority = normal;
  max_retries = 0;
  timeout = 0;
  deadline = none;
  category = "";
  track_metrics = true;
}

module _ {R : Type 0} where
  -- `then` with a function of a result, and with one of no argument.
  unfoldable pub then_with : (R → Outcome R) → String → TaskChain R → TaskChain R
  then_with func name c = record c { steps = c.steps ++ (func, name) ∷ [] }

  unfoldable pub then_without : Outcome R → String → TaskChain R → TaskChain R
  then_without outcome name c = record c { steps = c.steps ++ (λ _. outcome, name) ∷ [] }

  unfoldable pub clear : TaskChain R → TaskChain R
  clear c = record c { steps = [] }

  -- What the task of step `i` returns when it runs: the first gets the input, each other one gets
  -- the empty result, whatever the step before returned.
  unfoldable pub outcome_of : ℕ → R → R → (R → Outcome R) → Outcome R
  outcome_of zero initial_input empty func = func initial_input
  outcome_of (suc i) initial_input empty func = func empty

abbrev pub step_name : ℕ → String → String
step_name i name = if name == "" then join "ChainStep_" (to_string i) else name

module _ {S R : Type 0} where
  -- One round of the loop of `execute`, at time `now`.
  unfoldable pub submit_step :
      WorkPool S → ℕ → ℕ → ℕ → String → Executor S R → Option (Executor S R × Outcome ℕ)
  submit_step work now zero prev name x = submit work now (step_name 0 name) default_options none x
  submit_step work now (suc i) prev name x =
      submit_with_dependencies work now (step_name (suc i) name) default_options (prev ∷ []) none x

  -- The loop, from step `i` on; an exception ends it.
  unfoldable pub execute_from :
      WorkPool S
      → (ℕ → ℕ)
      → ℕ
      → ℕ
      → List ((R → Outcome R) × String)
      → Executor S R
      → Option (Executor S R × Outcome ℕ)
  execute_from work clock i current [] x = some (x, returns current)
  execute_from work clock i current ((func, name) ∷ steps) x =
      elim (submit_step work (clock i) i current name x) [
        | none ↦ none
        | some (x', reply) ↦ elim reply [
          | throws e ↦ some (x', throws e)
          | returns id ↦ execute_from work clock (suc i) id steps x'
        ]
      ]

  -- `execute`; an empty chain is answered by 0, and by no submission.
  unfoldable pub execute :
      WorkPool S → (ℕ → ℕ) → TaskChain R → Executor S R → Option (Executor S R × Outcome ℕ)
  execute work clock c x = execute_from work clock 0 0 c.steps x
