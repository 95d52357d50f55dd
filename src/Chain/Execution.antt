-- ===== src/Chain/Execution.antt =====
-- What the execution of a chain leaves behind.
use nexus_task.Prelude.{
  ℕ, suc, ◌+◌, ◌<◌, ◌≡◌, ◌≢◌, refl, subst, arith, word, Option, none, some, List, [], ◌∷◌, nat_eq,
  String, length,
}
use nexus_task.Task.{Outcome, returns, throws}
use nexus_task.WorkPool.{WorkPool}
use nexus_task.Executor.{Executor, plain, enter, submit, submit_with_dependencies, submit_internal}
use nexus_task.Executor.Sound.{IsSound}
use nexus_task.Chain.{TaskChain, default_options, step_name, submit_step, execute_from, execute}
use nexus_task.Chain.Links.{
  Enters, submit_internal-Enters, Linked, Same-Linked, enter_first, enter_next,
}

module _ {S R : Type 0} where
  abbrev pub Chained : Executor S R → ℕ → Option (Executor S R × Outcome ℕ) → Type 0
  Chained x0 n none = Unit
  Chained x0 n (some (x', throws e)) = Unit
  Chained x0 n (some (x', returns id)) = Linked x0 n x' × (id + 1 ≡ x0.next_task_id + n)

  module _ (work : WorkPool S) (clock : ℕ → ℕ) (x0 : Executor S R) where
    -- The rest of the loop, behind a submission that has entered its task.
    goes_on :
        (n : ℕ) (steps : List ((R → Outcome R) × String)) (y : Executor S R)
        (answer : Option (Executor S R × Outcome ℕ))
        → Linked x0 (suc n) y
        → Enters y (x0.next_task_id + n) answer
        → ((z : Executor S R)
            → Linked x0 (suc n) z
            → Chained x0
                (suc n + length steps)
                (execute_from work clock (suc n) (x0.next_task_id + n) steps z))
        → Chained x0 (suc n + length steps) (elim answer [
          | none ↦ none
          | some (z, reply) ↦ elim reply [
            | throws e ↦ some (z, throws e)
            | returns id ↦ execute_from work clock (suc n) id steps z
          ]
        ])
    goes_on n steps y none v e rest = tt
    goes_on n steps y (some (z, throws error)) v e rest = tt
    goes_on n steps y (some (z, returns id)) v (same, given) rest =
        rw given (rest z (Same-Linked x0 y z (suc n) v same))

    execute_from-Chained :
        (steps : List ((R → Outcome R) × String)) (n : ℕ) (x : Executor S R)
        → Linked x0 (suc n) x
        → x0.next_task_id + suc n + length steps < word
        → Chained x0
            (suc n + length steps)
            (execute_from work clock (suc n) (x0.next_task_id + n) steps x)
    unfolding execute_from submit_step submit_with_dependencies
    execute_from-Chained [] n x v small = (subst (λ m. Linked x0 m x) (omega arith) v, omega arith)
    execute_from-Chained ((func, name) ∷ steps) n x v small =
        let prev = x0.next_task_id + n in
        let title = step_name (suc n) name in
        let now = clock (suc n) in
        let y = enter now title default_options (prev ∷ []) (plain none) none x in
        let linked : Linked x0 (suc (suc n)) y =
          subst (λ m. Linked x0 m y) (omega arith)
            (enter_next now title x0 x n v (omega (arith, small, v.next_id))) in
        let answer =
          submit_internal work now title default_options (prev ∷ []) (plain none) none x in
        let enters : Enters y (x0.next_task_id + suc n) answer =
          subst (λ m. Enters y m answer) v.next_id
            (submit_internal-Enters work now title default_options (prev ∷ []) (plain none) none
              x) in
        subst (λ m. Chained x0 m (execute_from work clock (suc n) prev ((func, name) ∷ steps) x))
          (omega arith)
          (goes_on (suc n) steps y answer linked enters
            (λ z w. execute_from-Chained steps (suc n) z w (omega (arith, small))))

    execute_steps :
        (steps : List ((R → Outcome R) × String))
        → IsSound x0
        → x0.next_task_id + length steps < word
        → (steps ≡ [] → execute_from work clock 0 0 steps x0 ≡ some (x0, returns 0))
          × (steps ≢ [] → Chained x0 (length steps) (execute_from work clock 0 0 steps x0))
    unfolding execute_from submit_step submit
    execute_steps [] v small = (λ e. refl, λ ne. absurd (ne refl))
    execute_steps ((func, name) ∷ steps) v small =
        let title = step_name 0 name in
        let now = clock 0 in
        let y = enter now title default_options [] (plain none) none x0 in
        let answer = submit_internal work now title default_options [] (plain none) none x0 in
        let enters : Enters y (x0.next_task_id + 0) answer =
          subst (λ m. Enters y m answer) (omega arith)
            (submit_internal-Enters work now title default_options [] (plain none) none x0) in
        (
          λ e. cc,
          λ ne.
              subst (λ m. Chained x0 m (execute_from work clock 0 0 ((func, name) ∷ steps) x0))
                (omega arith)
                (goes_on 0 steps y answer (enter_first now title x0 v (omega (arith, small))) enters
                  (λ z w. execute_from-Chained steps 0 z w (omega (arith, small)))),
        )

    -- An empty chain is answered by 0 and submits nothing. If the execution of any other chain on a
    -- sound executor with room for its ids ends and no submission throws, then each step has one
    -- task, under consecutive ids and at consecutive addresses, whose only dependency is the task of
    -- the step before, the first having none; the answer is the id of the last; and the graph is
    -- well formed.
    pub execute-Chained :
        (c : TaskChain R)
        → IsSound x0
        → x0.next_task_id + length c.steps < word
        → (c.steps ≡ [] → execute work clock c x0 ≡ some (x0, returns 0))
          × (c.steps ≢ [] → Chained x0 (length c.steps) (execute work clock c x0))
    unfolding execute
    execute-Chained c v small = execute_steps c.steps v small
