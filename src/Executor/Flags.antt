-- ===== src/Executor/Flags.antt =====
-- The flag `is_cancelled` of the tasks, which `cancel` sets and nothing clears.
use nexus_task.Prelude.{
  ℕ, ◌≡◌, refl, sym, ap, ◌∙◌, arith, Bool, true, false, not, Option, none, some, List, [], ◌∷◌,
  ◌=ℕ◌, if◌then◌else◌, inl, inr, Bool-cases, Option-cases, lookup, nat_eq,
}
use nexus_task.Task
use nexus_task.Task.{Task, Outcome, returns, throws, cancelled_before, notify_dependency_completed}
use nexus_task.Graph.{Heap, Graph, get_task, modify, notify_each, notify_task_completed}
use nexus_task.Executor.Kept.{cancel-Same}
use nexus_task.Executor.{Executor, cancel, settle, settle_registered, finish, on_task}

abbrev pub flag : {S R : Type 0} → Executor S R → ℕ → Bool
flag x p = (x.graph.heap p).is_cancelled

cancel_task :
    (t : Task) → ((Task.cancel t).1 ≡ not t.is_cancelled) × ((Task.cancel t).0.is_cancelled ≡ true)
unfolding Task.cancel
cancel_task t = ground arith

notify_each-cancelled :
    (ps : List ℕ) (heap : Heap) (q : ℕ)
    → (notify_each ps heap q).is_cancelled ≡ (heap q).is_cancelled
unfolding notify_each notify_dependency_completed
notify_each-cancelled [] heap q = refl
notify_each-cancelled (p ∷ ps) heap q =
    notify_each-cancelled ps (modify notify_dependency_completed p heap) q ∙ ground arith

notify-cancelled :
    (id : ℕ) (g : Graph) (q : ℕ)
    → ((notify_task_completed id g).heap q).is_cancelled ≡ (g.heap q).is_cancelled
unfolding notify_task_completed
notify-cancelled id g q = elim (Option-cases (lookup id g.tasks)) [
  | inl e ↦ rw (e, notify_task_completed) refl
  | inr (p, e) ↦
      rw (e, notify_task_completed) (notify_each-cancelled (g.heap p).dependents g.heap q)
]

-- What `cancel` does to the flag of a task `q`.
abbrev pub flagged : Option ℕ → ℕ → Bool → Bool
flagged none q b = b
flagged (some p) q b = if p =ℕ q then true else b

flagged_keeps : (o : Option ℕ) (q : ℕ) (b : Bool) → b ≡ true → flagged o q b ≡ true
flagged_keeps none q b h = h
flagged_keeps (some p) q b h = ground (arith, h)

module _ {S R : Type 0} where
  settle_registered-graph :
      (id : ℕ) (o : Outcome R) (x : Executor S R) → (settle_registered id o x).0.graph ≡ x.graph
  unfolding settle_registered settle
  settle_registered-graph id o x = elim (Option-cases (lookup id x.task_promises)) [
    | inl e ↦ rw (e, settle_registered) refl
    | inr (a, e) ↦ elim (Option-cases (x.promise_of a)) [
      | inl f ↦ rw (e, settle_registered) (rw (f, settle) refl)
      | inr (o', f) ↦ rw (e, settle_registered) (rw (f, settle) refl)
    ]
  ]

  finish-flag : (id p : ℕ) (x : Executor S R) (q : ℕ) → flag (finish id p x) q ≡ flag x q
  unfolding finish Task.clear_enqueued_flag
  finish-flag id p x q = ground (arith, notify-cancelled id x.graph q)

  -- The object of `cancel` is marked.
  marked-flag :
      (p : ℕ) (x : Executor S R) (q : ℕ)
      → flag (on_task (λ _. (Task.cancel (x.graph.heap p)).0) p x) q
        ≡ (if p =ℕ q then true else flag x q)
  marked-flag p x q = ground (arith, cancel_task (x.graph.heap p))

  -- `cancel` marks the task that it finds, and no other.
  pub cancel-flag :
      (id : ℕ) (x : Executor S R) (q : ℕ)
      → flag (cancel id x).0 q ≡ flagged (lookup id x.graph.tasks) q (flag x q)
  unfolding cancel get_task
  cancel-flag id x q = elim (Option-cases (lookup id x.graph.tasks)) [
    | inl e ↦ rw (e, cancel) refl
    | inr (p, e) ↦
        let set = on_task (λ _. (Task.cancel (x.graph.heap p)).0) p x in
        let reply = settle_registered id (throws cancelled_before) set in
        let kept : flag reply.0 q ≡ (if p =ℕ q then true else flag x q) =
          ap (λ (g : Graph). (g.heap q).is_cancelled)
            (settle_registered-graph id (throws cancelled_before) set)
          ∙ marked-flag p x q in
        elim (Bool-cases (Task.cancel (x.graph.heap p)).1) [
          | inr old ↦ rw (e, old, cancel) (ground (arith, old, cancel_task (x.graph.heap p)))
          | inl new ↦ elim (Option-cases reply.1) [
            | inr (thrown, f) ↦ rw (e, new, f, cancel) kept
            | inl f ↦ rw (e, new, f, cancel) (finish-flag id p _ q ∙ kept)
          ]
        ]
  ]

  -- No task that the id names is left to cancel.
  abbrev pub Gone : Executor S R → ℕ → Type 0
  Gone x id = (p : ℕ) → lookup id x.graph.tasks ≡ some p → flag x p ≡ true

  -- No flag is cleared, and each id keeps its task.
  abbrev pub Persists : Executor S R → Executor S R → Type 0
  Persists x x' = ((q : ℕ) → flag x q ≡ true → flag x' q ≡ true) × (x'.graph.tasks ≡ x.graph.tasks)

  pub cancel-Persists : (id : ℕ) (x : Executor S R) → Persists x (cancel id x).0
  cancel-Persists id x = (
    λ q h. cancel-flag id x q ∙ flagged_keeps (lookup id x.graph.tasks) q (flag x q) h,
    (cancel-Same id x).1,
  )

  pub cancel-Gone : (id : ℕ) (x : Executor S R) → Gone (cancel id x).0 id
  cancel-Gone id x p found =
      let before : lookup id x.graph.tasks ≡ some p =
        ap (lookup id) (sym (cancel-Same id x).1) ∙ found in
      cancel-flag id x p ∙ ap (λ o. flagged o p (flag x p)) before ∙ ground arith

  pub Gone-Persists : (x x' : Executor S R) (id : ℕ) → Persists x x' → Gone x id → Gone x' id
  Gone-Persists x x' id (keeps, same) g p found = keeps p (g p (ap (lookup id) (sym same) ∙ found))

  -- A second `cancel` does nothing.
  pub cancel_again : (id : ℕ) (x : Executor S R) → Gone x id → cancel id x ≡ (x, returns false)
  unfolding cancel get_task
  cancel_again id x g = elim (Option-cases (lookup id x.graph.tasks)) [
    | inl e ↦ rw (e, cancel) refl
    | inr (p, e) ↦
        let old : (Task.cancel (x.graph.heap p)).1 ≡ false =
          (cancel_task (x.graph.heap p)).0 ∙ ap not (g p e) in
        rw (e, old, cancel) refl
  ]
