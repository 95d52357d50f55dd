-- ===== src/Executor/Live.antt =====
-- What a round of the scheduler does for the tasks that are ready.
use nexus_task.Prelude.{
  ℕ, ◌≤◌, ◌<◌, ◌≡◌, subst, arith, Bool, true, false, Option, none, some, List, [], ◌∷◌, map, ◌=ℕ◌,
  =ℕ_iff, lookup, nat_eq, count, keep_if, Bool-cases, Option-cases, inl, inr,
}
use nexus_task.Task.{Task, is_ready, try_mark_enqueued}
use nexus_task.WorkPool.{WorkPool}
use nexus_task.Graph.{get_ready_tasks}
use nexus_task.Executor.{Executor, enqueue, enqueue_each, tick}

-- A task that is listed and passes the test stands in the result.
count-keep_if :
    (f : ℕ → Bool) (p : ℕ) (ps : List ℕ) → f p ≡ true → 0 < count p ps → 0 < count p (keep_if f ps)
count-keep_if f p [] pass h = h
count-keep_if f p (q ∷ ps) pass h = elim (Bool-cases (q =ℕ p)) [
  | inl e ↦
      let same : q ≡ p = (=ℕ_iff q p).0 e in
      let kept : f q ≡ true = rw same pass in rw kept (rw e (omega arith))
  | inr e ↦
      let rest = count-keep_if f p ps pass (let lt : 0 < count p ps = ground (arith, e, h) in lt) in
      elim (Bool-cases (f q)) [
        | inl kept ↦ rw kept (omega (arith, rest))
        | inr dropped ↦ rw dropped rest
      ]
]

count-lookup :
    (k p : ℕ) (tasks : List (ℕ × ℕ))
    → lookup k tasks ≡ some p
    → 0 < count p (map (λ entry. entry.1) tasks)
count-lookup k p [] h = cc
count-lookup k p ((j, q) ∷ tasks) h = ground (arith, h, count-lookup k p tasks)

mark_lem :
    (t : Task)
    → ((try_mark_enqueued t).0.enqueued ≡ true)
      × (t.enqueued ≡ false → (try_mark_enqueued t).1 ≡ true)
unfolding try_mark_enqueued
mark_lem t = ground arith

module _ {S R : Type 0} (work : WorkPool S) (p : ℕ) where
  -- The task is marked, and stands in the queues of the pool.
  abbrev pub Queued : Executor S R → Type 0
  Queued x = ((x.graph.heap p).enqueued ≡ true) × (1 ≤ work.held x.pool p)

  abbrev pub StepQueued : Option (Executor S R × Bool) → Type 0
  StepQueued none = Unit
  StepQueued (some (x, false)) = Unit
  StepQueued (some (x, true)) = Queued x

  enqueue-keeps : (q : ℕ) (x : Executor S R) → Queued x → StepQueued (enqueue work q x)
  unfolding enqueue
  enqueue-keeps q x (on, in_pool) =
      let (t, marked) = try_mark_enqueued (x.graph.heap q) in
      elim (Bool-cases marked) [
        | inr e ↦ rw (e, enqueue) (ground (arith, on, mark_lem (x.graph.heap q)), in_pool)
        | inl e ↦ elim (Option-cases (work.submit x.pool q t.options.priority)) [
          | inl f ↦ rw (e, f, enqueue) tt
          | inr ((pool, true), f) ↦
              let held = work.submit_held x.pool q t.options.priority pool true f p in
              rw (e, f, enqueue)
                (ground (arith, on, mark_lem (x.graph.heap q)), omega (arith, held, in_pool))
          | inr ((pool, false), f) ↦ rw (e, f, enqueue) tt
        ]
      ]

  enqueue_new :
      (x : Executor S R) → (x.graph.heap p).enqueued ≡ false → StepQueued (enqueue work p x)
  unfolding enqueue
  enqueue_new x off =
      let (t, marked) = try_mark_enqueued (x.graph.heap p) in
      let e : marked ≡ true = (mark_lem (x.graph.heap p)).1 off in
      elim (Option-cases (work.submit x.pool p t.options.priority)) [
        | inl f ↦ rw (e, f, enqueue) tt
        | inr ((pool, true), f) ↦
            let held = work.submit_held x.pool p t.options.priority pool true f p in
            rw (e, f, enqueue) (ground (arith, mark_lem (x.graph.heap p)), ground (arith, held))
        | inr ((pool, false), f) ↦ rw (e, f, enqueue) tt
      ]

  -- The other tasks keep their marks.
  abbrev StepOff : Option (Executor S R × Bool) → Type 0
  StepOff none = Unit
  StepOff (some (x, done)) = (x.graph.heap p).enqueued ≡ false

  enqueue_other :
      (q : ℕ) (x : Executor S R)
      → (q =ℕ p) ≡ false
      → (x.graph.heap p).enqueued ≡ false
      → StepOff (enqueue work q x)
  unfolding enqueue
  enqueue_other q x other off =
      let (t, marked) = try_mark_enqueued (x.graph.heap q) in
      elim (Bool-cases marked) [
        | inr e ↦ rw (e, enqueue) (ground (arith, off, other))
        | inl e ↦ elim (Option-cases (work.submit x.pool q t.options.priority)) [
          | inl f ↦ rw (e, f, enqueue) tt
          | inr ((pool, done), f) ↦ rw (e, f, enqueue) (ground (arith, off, other))
        ]
      ]

  each_keeps : (ps : List ℕ) (x : Executor S R) → Queued x → StepQueued (enqueue_each work ps x)
  unfolding enqueue_each
  each_keeps [] x on = on
  each_keeps (q ∷ ps) x on = elim (Option-cases (enqueue work q x)) [
    | inl e ↦ rw (e, enqueue_each) tt
    | inr ((x', true), e) ↦
        let on' : Queued x' = subst StepQueued e (enqueue-keeps q x on) in
        rw (e, enqueue_each) (each_keeps ps x' on')
    | inr ((x', false), e) ↦ rw (e, enqueue_each) tt
  ]

  each_new :
      (ps : List ℕ) (x : Executor S R)
      → (x.graph.heap p).enqueued ≡ false
      → 0 < count p ps
      → StepQueued (enqueue_each work ps x)
  unfolding enqueue_each
  each_new [] x off listed = absurd (omega arith)
  each_new (q ∷ ps) x off listed = elim (Option-cases (enqueue work q x)) [
    | inl e ↦ rw (e, enqueue_each) tt
    | inr ((x', false), e) ↦ rw (e, enqueue_each) tt
    | inr ((x', true), e) ↦ elim (Bool-cases (q =ℕ p)) [
      | inl same ↦
          let here : enqueue work p x ≡ some (x', true) =
            subst (λ r. enqueue work r x ≡ some (x', true)) ((=ℕ_iff q p).0 same) e in
          let on : Queued x' = subst StepQueued here (enqueue_new x off) in
          rw (e, enqueue_each) (each_keeps ps x' on)
      | inr other ↦
          let off' : (x'.graph.heap p).enqueued ≡ false =
            subst StepOff e (enqueue_other q x other off) in
          rw (e, enqueue_each) (each_new ps x' off' (ground (arith, other, listed)))
    ]
  ]

ready_off : (t : Task) → is_ready t ≡ true → t.enqueued ≡ false
unfolding is_ready
ready_off t h = ground (arith, h)

-- After a round of the running scheduler that ends and meets no shutdown of the pool, every task of
-- the graph that was ready is marked as enqueued and stands in the queues of the pool: no ready task
-- is passed over.
pub tick-Queued :
    {S R : Type 0} (work : WorkPool S) (id p : ℕ) (x : Executor S R)
    → x.scheduler_running ≡ true
    → lookup id x.graph.tasks ≡ some p
    → is_ready (x.graph.heap p) ≡ true
    → StepQueued work p (tick work x)
unfolding tick get_ready_tasks
tick-Queued work id p x running known ready =
    let all = map (λ (entry : ℕ × ℕ). entry.1) x.graph.tasks in
    let listed =
      count-keep_if (λ q. is_ready (x.graph.heap q)) p all ready
        (count-lookup id p x.graph.tasks known) in
    simp running
      (each_new work p (get_ready_tasks x.graph) x (ready_off (x.graph.heap p) ready) listed)
