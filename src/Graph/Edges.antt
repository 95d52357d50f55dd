-- ===== src/Graph/Edges.antt =====
-- The operations keep a graph well formed.
use nexus_task.Prelude.{
  ℕ, ◌≡◌, refl, ◌∙◌, List, [], ◌∷◌, ◌++◌, none, some, if◌then◌else◌, ◌=ℕ◌, lookup, insert,
  lookup-insert, nat_eq, arith, count-append, inl, inr, Option-cases,
}
use nexus_task.Task.{notify_dependency_completed}
use nexus_task.Graph.{
  Graph, Heap, modify, add_task, add_dependency, link, link_found, notify_each,
  notify_task_completed,
}
use nexus_task.Graph.Wired.{IsWired}
use nexus_task.Graph.Bridge.{count-keys-insert}

pub empty-IsWired : (heap : Heap) → IsWired (record { heap = heap; tasks = [] })
empty-IsWired heap = record {
  distinct = λ k. omega arith;
  named = λ k p e. ground arith;
  up = λ k p q e h. ground arith;
  down = λ k p q e h. ground arith;
  matched = λ k p j q e f. ground arith;
}

-- A new task, without edges and with an id that the map lacks, keeps the graph well formed.
pub add_task-IsWired :
    (g : Graph) (p : ℕ)
    → lookup (g.heap p).id g.tasks ≡ none
    → (g.heap p).dependencies ≡ []
    → (g.heap p).dependents ≡ []
    → IsWired g
    → IsWired (add_task p g)
unfolding add_task
add_task-IsWired g p new no_deps no_dependents w = record {
  distinct = λ k. ground (arith, count-keys-insert k id p g.tasks, w.distinct k);
  named = λ k q e. ground (arith, at k, w.named k q);
  up = λ k r q e h. ground (arith, at k, at (g.heap q).id, w.up k r q);
  down = λ k r q e h. ground (arith, at k, at (g.heap q).id, w.down k r q);
  matched = λ k r j q e f. ground (arith, at k, at j, w.matched k r j q, w.up k r p, w.down j q p);
}
  where
    id : ℕ
    id = (g.heap p).id

    at : (k : ℕ) → lookup k (insert id p g.tasks) ≡ (if id =ℕ k then some p else lookup k g.tasks)
    at k = lookup-insert id k p g.tasks

-- What an operation may do to the heap while the graph stays well formed: ids and edges stay.
pub record SameEdges (before after : Heap) : Type 0 where
  pub id_kept : (p : ℕ) → (after p).id ≡ (before p).id
  pub dependencies_kept : (p : ℕ) → (after p).dependencies ≡ (before p).dependencies
  pub dependents_kept : (p : ℕ) → (after p).dependents ≡ (before p).dependents

pub SameEdges-IsWired :
    (g : Graph) (heap : Heap)
    → SameEdges g.heap heap
    → IsWired g
    → IsWired (record g { heap = heap })
SameEdges-IsWired g heap s w = record {
  distinct = w.distinct;
  named = λ k p e. s.id_kept p ∙ w.named k p e;
  up = λ k p q e h. rw (s.id_kept q) (w.up k p q e (rw (s.dependents_kept p) at h));
  down = λ k p q e h. rw (s.id_kept q) (w.down k p q e (rw (s.dependencies_kept p) at h));
  matched = λ k p j q e f. rw (s.dependents_kept p, s.dependencies_kept q) (w.matched k p j q e f);
}

pub notify_each-SameEdges : (ps : List ℕ) (heap : Heap) → SameEdges heap (notify_each ps heap)
unfolding notify_each
notify_each-SameEdges [] heap = record {
  id_kept = λ p. refl;
  dependencies_kept = λ p. refl;
  dependents_kept = λ p. refl;
}
notify_each-SameEdges (q ∷ ps) heap =
    let s = notify_each-SameEdges ps (modify notify_dependency_completed q heap) in
    record {
      id_kept = λ p. ground (arith, s.id_kept p);
      dependencies_kept = λ p. ground (arith, s.dependencies_kept p);
      dependents_kept = λ p. ground (arith, s.dependents_kept p);
    }

-- A notification keeps the graph well formed.
pub notify_task_completed-IsWired :
    (id : ℕ) (g : Graph) → IsWired g → IsWired (notify_task_completed id g)
unfolding notify_task_completed
notify_task_completed-IsWired id g w = elim (Option-cases (lookup id g.tasks)) [
  | inl e ↦ rw (e, notify_task_completed) w
  | inr (p, e) ↦
      rw (e, notify_task_completed)
        (SameEdges-IsWired g _ (notify_each-SameEdges (g.heap p).dependents g.heap) w)
]

-- What `link` does to the fields of each task.
link_fields :
    (p d q : ℕ) (heap : Heap)
    → ((link p d heap q).id ≡ (heap q).id)
      × ((link p d heap q).dependencies
          ≡ (if p =ℕ q then (heap q).dependencies ++ d ∷ [] else (heap q).dependencies))
      × ((link p d heap q).dependents
          ≡ (if d =ℕ q then (heap q).dependents ++ p ∷ [] else (heap q).dependents))
unfolding link
link_fields p d q heap = (ground arith, ground arith, ground arith)

link-IsWired :
    (g : Graph) (k j p d : ℕ)
    → lookup k g.tasks ≡ some p
    → lookup j g.tasks ≡ some d
    → IsWired g
    → IsWired (record g { heap = link p d g.heap })
link-IsWired g k j p d kp jd w = record {
  distinct = w.distinct;
  named = λ i r e. ground (arith, link_fields p d r g.heap, w.named i r);
  up = λ i r q e h. ground (
    arith,
    link_fields p d r g.heap,
    link_fields p d q g.heap,
    count-append q (g.heap r).dependents (p ∷ []),
    w.up i r q,
    w.named k p,
  );
  down = λ i r q e h. ground (
    arith,
    link_fields p d r g.heap,
    link_fields p d q g.heap,
    count-append q (g.heap r).dependencies (d ∷ []),
    w.down i r q,
    w.named j d,
  );
  matched = λ i r i' q e f. ground (
    arith,
    link_fields p d r g.heap,
    link_fields p d q g.heap,
    count-append q (g.heap r).dependents (p ∷ []),
    count-append r (g.heap q).dependencies (d ∷ []),
    w.matched i r i' q,
  );
}

-- `add_dependency` keeps the graph well formed, a task that depends on itself included.
pub add_dependency-IsWired :
    (task_id dependency_id : ℕ) (g : Graph)
    → IsWired g
    → IsWired (add_dependency task_id dependency_id g)
unfolding add_dependency
add_dependency-IsWired k j g w = elim (Option-cases (lookup k g.tasks)) [
  | inl e ↦ rw (e, add_dependency, link_found) w
  | inr (p, e) ↦ elim (Option-cases (lookup j g.tasks)) [
    | inl f ↦ rw (e, f, add_dependency, link_found) w
    | inr (d, f) ↦ rw (e, f, add_dependency, link_found) (link-IsWired g k j p d e f w)
  ]
]

-- A dependency is the last of the dependencies of its task; no other task gets one.
pub add_dependency-dependencies :
    (id d : ℕ) (g : Graph) (p q r : ℕ)
    → lookup id g.tasks ≡ some p
    → lookup d g.tasks ≡ some q
    → ((add_dependency id d g).heap r).dependencies
      ≡ (if p =ℕ r then (g.heap r).dependencies ++ q ∷ [] else (g.heap r).dependencies)
unfolding add_dependency link_found link
add_dependency-dependencies id d g p q r found target =
    rw (found, target, add_dependency) (ground arith)
