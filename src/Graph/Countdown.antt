-- ===== src/Graph/Countdown.antt =====
-- The counter of open dependencies, and when a task becomes ready.
use nexus_task.Prelude.{
  ℕ, ◌-◌, ◌≤◌, ◌≡◌, refl, sym, ap, ◌∙◌, subst, List, [], ◌∷◌, some, if◌then◌else◌, ◌=ℕ◌, lookup,
  nat_eq, length, arith, count, sum_of, ltb, Bool-cases, inl, inr, pos, sum_of-count-le,
}
use nexus_task.Task.{ready, notify_dependency_completed}
use nexus_task.Graph.{Graph, Heap, modify, notify_each, notify_task_completed}
use nexus_task.Graph.Wired.{IsWired}

-- How many of the dependencies in `ds` have been notified, if `done` were.
abbrev pub notified : List ℕ → List ℕ → ℕ
notified done ds = sum_of (λ p. count p ds) done

-- The counter of each task is the number of its dependencies that have not been notified.
pub record IsCounted (g : Graph) (done : List ℕ) : Type 0 where
  pub once : (p : ℕ) → count p done ≤ 1
  pub counted :
      (k q : ℕ)
      → lookup k g.tasks ≡ some q
      → (g.heap q).dependencies_count
        ≡ pos (length (g.heap q).dependencies - notified done (g.heap q).dependencies)

-- Notifying `q` as often as it stands in `ps`, with a counter that is large enough.
notify_each-count :
    (ps : List ℕ) (q n : ℕ) (heap : Heap)
    → (heap q).dependencies_count ≡ pos n
    → count q ps ≤ n
    → ((notify_each ps heap q).dependencies_count ≡ pos (n - count q ps))
      × ((notify_each ps heap q).status ≡ (
          if ltb 0 (count q ps)
          then (if n =ℕ count q ps then ready else (heap q).status)
          else (heap q).status))
      × ((notify_each ps heap q).dependencies ≡ (heap q).dependencies)
unfolding notify_each
notify_each-count [] q n heap e h = (ground arith, refl, refl)
notify_each-count (p ∷ ps) q n heap e h = elim (Bool-cases (p =ℕ q)) [
  | inl hit ↦
      let rest =
        notify_each-count ps q (n - 1) (modify notify_dependency_completed p heap) (ground arith)
          (ground arith) in
      ground (arith, rest)
  | inr miss ↦
      let rest =
        notify_each-count ps q n (modify notify_dependency_completed p heap) (ground arith)
          (ground arith) in
      ground (arith, rest)
]

module _ (g : Graph) (done : List ℕ) (w : IsWired g) (c : IsCounted g done) (id p : ℕ)
    (found : lookup id g.tasks ≡ some p) (fresh : count p done ≡ 0) where
  once_more : (a : ℕ) → count a (p ∷ done) ≤ 1
  once_more a = ground (arith, c.once a)

  notified_task :
      (k q : ℕ)
      → lookup k g.tasks ≡ some q
      → let after = notify_each (g.heap p).dependents g.heap q in
        let left = length (g.heap q).dependencies - notified done (g.heap q).dependencies in
        (after.dependencies_count ≡ pos (left - count p (g.heap q).dependencies))
        × (after.status ≡ (
            if ltb 0 (count p (g.heap q).dependencies)
            then (if left =ℕ count p (g.heap q).dependencies then ready else (g.heap q).status)
            else (g.heap q).status))
        × (after.dependencies ≡ (g.heap q).dependencies)
  notified_task k q e =
      let n = length (g.heap q).dependencies - notified done (g.heap q).dependencies in
      let same = w.matched id p k q found e in
      let le = sum_of-count-le (g.heap q).dependencies (p ∷ done) once_more in
      rw (← same) (
        notify_each-count (g.heap p).dependents q n g.heap (c.counted k q e)
          (omega (arith, same, le)))

  -- A first notification of a task counts it off at each of its dependents: the counter of every
  -- task of the graph stays the number of its dependencies that have not been notified.
  pub notify_task_completed-IsCounted : IsCounted (notify_task_completed id g) (p ∷ done)
  unfolding notify_task_completed
  notify_task_completed-IsCounted =
      rw (found, notify_task_completed)
        (record {
          once = once_more;
          counted = λ k q e.
              let (n, _, ds) = notified_task k q e in
              subst
                (λ l.
                  (notify_each (g.heap p).dependents g.heap q).dependencies_count
                  ≡ pos (length l - notified (p ∷ done) l))
                (sym ds) (n ∙ ap pos (omega arith));
        })
