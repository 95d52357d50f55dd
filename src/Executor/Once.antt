-- ===== src/Executor/Once.antt =====
-- The `enqueued` flag: no task stands in the queues of the pool twice.
use nexus_task.Prelude.{
  ℕ, ◌≤◌, ◌≡◌, subst, true, false, Option, none, some, List, [], ◌∷◌, if◌then◌else◌, arith,
  Bool-cases, Option-cases, inl, inr,
}
use nexus_task.Task.{Task, try_mark_enqueued}
use nexus_task.WorkPool.{WorkPool}
use nexus_task.Graph.{get_ready_tasks}
use nexus_task.Executor.{Executor, enqueue, enqueue_each, tick}

mark_enqueued :
    (t : Task)
    → ((try_mark_enqueued t).1 ≡ true → t.enqueued ≡ false)
      × ((try_mark_enqueued t).1 ≡ true → (try_mark_enqueued t).0.enqueued ≡ true)
      × ((try_mark_enqueued t).0.options ≡ t.options)
unfolding try_mark_enqueued
mark_enqueued t = ground arith

module _ {S R : Type 0} (work : WorkPool S) where
  -- A task in the queues is there once, and its flag is set.
  abbrev pub Once : Executor S R → Type 0
  Once x = (p : ℕ) → work.held x.pool p ≤ (if (x.graph.heap p).enqueued then 1 else 0)

  abbrev pub StepOnce {ℓ} : {B : Type ℓ} → Option (Executor S R × B) → Type 0
  StepOnce none = Unit
  StepOnce (some (x, b)) = Once x

  enqueue-Once : (p : ℕ) (x : Executor S R) → Once x → StepOnce (enqueue work p x)
  unfolding enqueue
  enqueue-Once p x once =
      let (t, marked) = try_mark_enqueued (x.graph.heap p) in
      let (clear, set, _) = mark_enqueued (x.graph.heap p) in
      elim (Bool-cases marked) [
        | inr e ↦ rw (e, enqueue) once
        | inl e ↦ elim (Option-cases (work.submit x.pool p t.options.priority)) [
          | inl f ↦ rw (e, f, enqueue) tt
          | inr ((pool, done), f) ↦
              rw (e, f, enqueue)
                (λ q. ground (
                  arith,
                  once q,
                  once p,
                  clear e,
                  set e,
                  work.submit_held x.pool p t.options.priority pool done f q,
                ))
        ]
      ]

  enqueue_each-Once : (ps : List ℕ) (x : Executor S R) → Once x → StepOnce (enqueue_each work ps x)
  unfolding enqueue_each
  enqueue_each-Once [] x once = once
  enqueue_each-Once (p ∷ ps) x once = elim (Option-cases (enqueue work p x)) [
    | inl e ↦ rw (e, enqueue_each) tt
    | inr ((x', done), e) ↦
        let once' : Once x' = subst StepOnce e (enqueue-Once p x once) in
        elim (Bool-cases done) [
          | inr f ↦ rw (e, f, enqueue_each) once'
          | inl f ↦ rw (e, f, enqueue_each) (enqueue_each-Once ps x' once')
        ]
  ]

  -- If the queues hold no task twice, and none whose flag is clear, then that still holds after a
  -- round of the scheduler, whichever tasks are ready, and whether or not the pool is shut down.
  pub tick-Once : (x : Executor S R) → Once x → StepOnce (tick work x)
  unfolding tick
  tick-Once x once = elim (Bool-cases x.scheduler_running) [
    | inr e ↦ simp e once
    | inl e ↦ simp e (enqueue_each-Once (get_ready_tasks x.graph) x once)
  ]
