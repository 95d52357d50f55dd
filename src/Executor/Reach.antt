-- ===== src/Executor/Reach.antt =====
-- Every history of TaskExecutor keeps its graph well formed and its ids and addresses new.
use nexus_task.Prelude.{
  ℕ, ◌+◌, ◌<◌, ◌≡◌, sym, subst, List, Option, none, some, inl, inr, arith, word, lookup, nat_eq,
  Bool-cases, Option-cases, String,
}
use nexus_task.Task.{TaskOptions, is_ready}
use nexus_task.WorkPool.{WorkPool}
use nexus_task.Graph.Edges.{SameEdges-IsWired}
use nexus_task.Graph.Wired.{IsWired}
use nexus_task.Executor.{Executor, Callback, enqueue, enter, submit_internal, start, stop}
use nexus_task.Executor.Frame.{Same, StepSame, Same-refl}
use nexus_task.Executor.Kept.{run_task-Same, cancel-Same, enqueue-Same, tick-Same}
use nexus_task.Executor.Sound.{IsSound, enter-IsSound}
use nexus_task.Executor.Steps.{
  Step, submits, runs, cancels, ticks, starts, stops, Steps, here, after,
}

module _ {S R : Type 0} where
  pub Same-IsSound : (x x' : Executor S R) → Same x x' → IsSound x → IsSound x'
  Same-IsSound x x' (e, t, i, a) v = record {
    wired =
        subst (λ tasks. IsWired (record { heap = x'.graph.heap; tasks = tasks })) (sym t)
          (SameEdges-IsWired x.graph x'.graph.heap e v.wired);
    ids_used =
        λ k p f. omega (arith, i, v.ids_used k p (subst (λ tasks. lookup k tasks ≡ some p) t f));
    addresses_used = λ k p f.
        omega (arith, a, v.addresses_used k p (subst (λ tasks. lookup k tasks ≡ some p) t f));
  }

  -- A step keeps the state sound, and gives out so many ids.
  abbrev pub Advances : ℕ → Executor S R → Executor S R → Type 0
  Advances n x x' = IsSound x' × (x'.next_task_id ≡ x.next_task_id + n)

  Same-Advances : (x x' : Executor S R) → IsSound x → Same x x' → Advances 0 x x'
  Same-Advances x x' v s = (Same-IsSound x x' s v, omega (arith, s.2))

  abbrev pub SubmitAdvances : {B : Type 0} → Executor S R → Option (Executor S R × B) → Type 0
  SubmitAdvances x none = Unit
  SubmitAdvances x (some (x', b)) = Advances 1 x x'

  module _ (work : WorkPool S) (x : Executor S R) (v : IsSound x)
      (small : x.next_task_id + 1 < word) (now : ℕ) (name : String) (options : TaskOptions)
      (dependencies : List ℕ) (callback : Callback R) (promise : Option ℕ) where
    enter-Advances : Advances 1 x (enter now name options dependencies callback promise x)
    unfolding enter
    enter-Advances =
        (enter-IsSound x v now name options dependencies callback promise small, omega arith)

    pub submit_internal-Advances :
        SubmitAdvances x (submit_internal work now name options dependencies callback promise x)
    unfolding submit_internal
    submit_internal-Advances =
        let entered = enter now name options dependencies callback promise x in
        let (sound, next) = enter-Advances in
        elim (Bool-cases (is_ready (entered.graph.heap x.allocated))) [
          | inr e ↦ rw (e, submit_internal) (sound, next)
          | inl e ↦ elim (Option-cases (enqueue work x.allocated entered)) [
            | inl f ↦ rw (e, f, submit_internal) tt
            | inr ((x', done), f) ↦
                let same : Same entered x' =
                  subst (StepSame entered) f (enqueue-Same work x.allocated entered) in
                rw (e, f, submit_internal)
                  (Same-IsSound entered x' same sound, omega (arith, same.2, next))
          ]
        ]

  -- How many ids a step, and a history, gives out.
  abbrev pub given : {work : WorkPool S} {x x' : Executor S R} → Step work x x' → ℕ
  given (submits now name options ds callback promise reply e) = 1
  given (runs now readings outcome p left e) = 0
  given (cancels id) = 0
  given (ticks done e) = 0
  given starts = 0
  given stops = 0

  abbrev pub submissions : {work : WorkPool S} {x x' : Executor S R} → Steps work x x' → ℕ
  submissions here = 0
  submissions (after s ss) = given s + submissions ss

  module _ (work : WorkPool S) where
    Step-Advances :
        (x x' : Executor S R) (s : Step work x x')
        → IsSound x
        → x.next_task_id + given s < word
        → Advances (given s) x x'
    unfolding start stop
    Step-Advances x x' (submits now name options ds callback promise reply e) v small =
        subst (SubmitAdvances x) e
          (submit_internal-Advances work x v small now name options ds callback promise)
    Step-Advances x x' (runs now readings outcome p left e) v small =
        Same-Advances x x' v (subst (StepSame x) e (run_task-Same work now readings outcome p x))
    Step-Advances x x' (cancels id) v small = Same-Advances x x' v (cancel-Same id x)
    Step-Advances x x' (ticks done e) v small =
        Same-Advances x x' v (subst (StepSame x) e (tick-Same work x))
    Step-Advances x x' starts v small = Same-Advances x x' v (Same-refl x)
    Step-Advances x x' stops v small = Same-Advances x x' v (Same-refl x)

    -- In every history of submissions, runs, cancellations and rounds of the scheduler that gives
    -- out fewer than 2^64 ids, the graph stays well formed, and the next id and the next address
    -- stay above those in use.
    pub Steps-IsSound :
        (x x' : Executor S R) (ss : Steps work x x')
        → IsSound x
        → x.next_task_id + submissions ss < word
        → IsSound x'
    Steps-IsSound x x' here v small = v
    Steps-IsSound x x' (after {x' = x1} s ss) v small =
        let (sound, next) = Step-Advances x x1 s v (omega (arith, small)) in
        Steps-IsSound x1 x' ss sound (omega (arith, small, next))
