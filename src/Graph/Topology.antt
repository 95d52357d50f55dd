-- ===== src/Graph/Topology.antt =====
-- `topological_order` and `has_cycles` on a well-formed graph.
use nexus_task.Prelude.{
  ℕ, suc, ◌≤◌, ◌<◌, ◌≡◌, ◌↔◌, refl, sym, ap, ◌∙◌, List, [], ◌∷◌, some, if◌then◌else◌, ◌=ℕ◌, lookup,
  lookup_or, nat_eq, length, arith, count, word, not, false, Bool, position, length-Within,
}
use mathlib.Core.Path.{fun_ext}
use native.Mathlib.Decide.{dec_lt}
use nexus_task.Graph.{
  Graph, indegrees, initial_ready, dependents, topological_order, has_cycles, place,
}
use nexus_task.Graph.Wired.{IsWired, keys, lookup-some}
use nexus_task.Graph.Kahn.{edges, IsSimple, Respects, IsOrder, IsRanked, place_total, start-Inv}
use nexus_task.Graph.Acyclic.{complete_of_ranked, IsRanked-of_complete}
use nexus_task.Graph.Bridge.{
  indegrees_absent, indegrees_present, count-keys-indegrees, count-initial_ready,
}
use nexus_task.Graph.Reading.{adjacency-dependents, edges-length, edges_absent, target_known}

module _ (g : Graph) (w : IsWired g)
    (small : (k p : ℕ) → lookup k g.tasks ≡ some p → length (g.heap p).dependencies < word) where
  abbrev nodes : List ℕ
  nodes = keys g.tasks

  abbrev targets : ℕ → List ℕ
  targets u = dependents u g

  simple : IsSimple nodes targets
  simple = record {
    distinct = w.distinct;
    closed =
        λ u v known edge. let (q, f) = lookup-some u g.tasks known in target_known g w u q v f edge;
    small = λ v. elim (dec_lt 0 (count v nodes)) [
      | yes known ↦
          let (p, e) = lookup-some v g.tasks known in
          omega (arith, edges-length g w v p e, small v p e)
      | no out ↦ omega (arith, edges_absent g w v (omega arith))
    ];
  }

  abbrev indegree : List (ℕ × ℕ)
  indegree = indegrees g.heap g.tasks []

  degrees : (v : ℕ) → lookup_or v 0 indegree ≡ edges nodes targets nodes v
  degrees v = elim (dec_lt 0 (count v nodes)) [
    | yes known ↦
        let (p, e) = lookup-some v g.tasks known in
        indegrees_present g.heap g.tasks [] v p (w.distinct v) e ∙ sym (edges-length g w v p e)
    | no out ↦
        indegrees_absent g.heap g.tasks [] v (omega arith) ∙ sym (edges_absent g w v (omega arith))
  ]

  first_ready :
      (v : ℕ)
      → count v (initial_ready indegree)
        ≡ (if edges nodes targets nodes v =ℕ 0 then count v nodes else 0)
  first_ready v =
      let same : count v (keys indegree) ≡ count v nodes =
        omega (arith, count-keys-indegrees g.heap g.tasks [] v, w.distinct v) in
      ground (arith, degrees v, same, w.distinct v, count-initial_ready indegree v)

  length-nodes : (m : List (ℕ × ℕ)) → length (keys m) ≡ length m
  length-nodes [] = refl
  length-nodes (x ∷ m) = ap suc (length-nodes m)

  order_found : (order : List ℕ) × (topological_order g ≡ some order) × IsOrder nodes targets order
  unfolding topological_order
  order_found =
      let (order, e, o) =
        place_total nodes targets simple (length g.tasks) [] (initial_ready indegree) indegree
          (omega (arith, length-nodes g.tasks))
          (start-Inv nodes targets simple (initial_ready indegree) indegree degrees first_ready)
          tt in
      (
        order,
        ap (λ a. place (length g.tasks) a indegree (initial_ready indegree) [])
              (fun_ext (adjacency-dependents g w))
            ∙ e,
        o,
      )

  -- `topological_order` ends. In its result no task stands twice, only tasks of the graph stand,
  -- and each stands behind all the tasks that it depends on.
  pub topological_order_sound :
      (order : List ℕ) × (topological_order g ≡ some order)
      × ((v : ℕ) → count v order ≤ count v (keys g.tasks))
      × Respects (keys g.tasks) (λ u. dependents u g) [] order
  topological_order_sound = let (order, e, o) = order_found in (order, e, o.within, o.respects)

  -- `has_cycles` answers, and it answers false exactly if the tasks can be numbered so that every
  -- edge leads to a larger number, which is to say that there is no cycle.
  pub has_cycles-exact :
      (cyclic : Bool) × (has_cycles g ≡ some cyclic)
      × ((cyclic ≡ false) ↔ ((rank : ℕ → ℕ) × IsRanked (keys g.tasks) (λ u. dependents u g) rank))
  unfolding has_cycles
  has_cycles-exact =
      let (order, e, o) = order_found in
      (
        not (length order =ℕ length g.tasks),
        rw (e, has_cycles),
        (
          λ h. (
            λ v. position v order,
            IsRanked-of_complete nodes targets order o (ground (arith, length-nodes g.tasks)),
          ),
          λ (rank, r).
              let same = complete_of_ranked nodes targets order o rank r in
              ground (
                arith,
                length-nodes g.tasks,
                length-Within order nodes (λ v. omega (arith, same v)),
                length-Within nodes order (λ v. omega (arith, same v)),
              ),
        ),
      )

  -- Without a cycle the order holds every task of the graph.
  pub topological_order_complete :
      (rank : ℕ → ℕ)
      → IsRanked (keys g.tasks) (λ u. dependents u g) rank
      → (order : List ℕ) × (topological_order g ≡ some order)
        × ((v : ℕ) → count v order ≡ count v (keys g.tasks))
  topological_order_complete rank r =
      let (order, e, o) = order_found in (order, e, complete_of_ranked nodes targets order o rank r)
