-- ===== src/Graph/Reading.antt =====
-- The edges of a well-formed graph, as the lists of ids that `topological_order` works on.
use nexus_task.Prelude.{
  ℕ, ◌<◌, ◌≡◌, ◌≢◌, refl, ◌∙◌, subst, List, [], ◌∷◌, some, lookup, lookup_or, nat_eq, length, arith,
  count, sum_of, sum_of-count, sum_of-zero,
}
use native.Mathlib.Decide.{ℕ_discrete, dec_lt}
use nexus_task.Graph.{Graph, Heap, adjacencies, ids_of, dependents}
use nexus_task.Graph.Wired.{
  IsWired, keys, addresses, lookup-none, lookup-some, count_of_lookup, AllFound, AllFound-self,
  count-addresses-le, count-addresses-pos,
}
use nexus_task.Graph.Kahn.{edges}
use nexus_task.Graph.Bridge.{adjacencies_absent, adjacencies_present}

-- The sum over the ids of a map is one over the addresses.
sum_of-keys :
    (f h : ℕ → ℕ) (all m : List (ℕ × ℕ))
    → AllFound all m
    → ((k p : ℕ) → lookup k all ≡ some p → f k ≡ h p)
    → sum_of f (keys m) ≡ sum_of h (addresses m)
sum_of-keys f h all [] a e = refl
sum_of-keys f h all ((k, p) ∷ m) a e = omega (arith, e k p a.0, sum_of-keys f h all m a.1 e)

named_in :
    (heap : Heap) (v : ℕ) (ds : List ℕ)
    → 0 < count v (ids_of heap ds)
    → (d : ℕ) × (0 < count d ds) × ((heap d).id ≡ v)
unfolding ids_of
named_in heap v [] h = absurd (omega arith)
named_in heap v (d ∷ ds) h = elim (ℕ_discrete (heap d).id v) [
  | yes e ↦ (d, ground arith, e)
  | no ne ↦ let (x, p, q) = named_in heap v ds (ground arith) in (x, omega arith, q)
]

module _ (g : Graph) (w : IsWired g) where
  abbrev pub ids : List ℕ
  ids = keys g.tasks

  abbrev pub adj : ℕ → List ℕ
  adj u = dependents u g

  pub adjacency-dependents :
      (u : ℕ) → lookup_or u [] (adjacencies g.heap g.tasks []) ≡ dependents u g
  unfolding dependents
  adjacency-dependents u = elim (dec_lt 0 (count u ids)) [
    | yes known ↦
        let (p, e) = lookup-some u g.tasks known in
        adjacencies_present g.heap g.tasks [] u p (w.distinct u) e ∙ rw (e, dependents)
    | no absent ↦
        let out : count u ids ≡ 0 = omega arith in
        adjacencies_absent g.heap g.tasks [] u out ∙ rw (lookup-none u g.tasks out, dependents)
  ]

  -- The ids of a task's dependents name an id as often as they point to its task.
  count-ids_of :
      (v p : ℕ) (ds : List ℕ)
      → lookup v g.tasks ≡ some p
      → ((q : ℕ) → 0 < count q ds → lookup (g.heap q).id g.tasks ≡ some q)
      → count v (ids_of g.heap ds) ≡ count p ds
  unfolding ids_of
  count-ids_of v p [] e known = refl
  count-ids_of v p (d ∷ ds) e known = elim (ℕ_discrete d p) [
    | yes same ↦ ground (arith, w.named v p e, count-ids_of v p ds e (λ q h. known q (omega arith)))
    | no other ↦
        let differs : (g.heap d).id ≢ v = (λ n.
          let found : lookup v g.tasks ≡ some d =
            subst (λ k. lookup k g.tasks ≡ some d) n (known d (ground arith)) in
          other (cc)) in
        ground (arith, differs, count-ids_of v p ds e (λ q h. known q (omega arith)))
  ]

  dependents_found :
      (k q : ℕ) → lookup k g.tasks ≡ some q → adj k ≡ ids_of g.heap (g.heap q).dependents
  unfolding dependents
  dependents_found k q f = rw (f, dependents)

  -- An edge leads to a task of the graph.
  pub target_known : (k q v : ℕ) → lookup k g.tasks ≡ some q → 0 < count v (adj k) → 0 < count v ids
  target_known k q v f edge =
      let (d, in_ds, name) =
        named_in g.heap v (g.heap q).dependents (rw (dependents_found k q f) at edge) in
      count_of_lookup v g.tasks d (subst (λ x. lookup x g.tasks ≡ some d) name (w.up k q d f in_ds))

  pub edges-length :
      (v p : ℕ) → lookup v g.tasks ≡ some p → edges ids adj ids v ≡ length (g.heap p).dependencies
  edges-length v p e =
      sum_of-keys (λ u. count v (adj u)) (λ q. count q (g.heap p).dependencies) g.tasks g.tasks
        (AllFound-self g.tasks w.distinct) per_task
      ∙ sum_of-count (g.heap p).dependencies (addresses g.tasks) once
    where
      per_task :
          (k q : ℕ) → lookup k g.tasks ≡ some q → count v (adj k) ≡ count q (g.heap p).dependencies
      per_task k q f =
          rw (dependents_found k q f)
            (count-ids_of v p (g.heap q).dependents e (λ r. w.up k q r f) ∙ w.matched k q v p f e)

      once : (a : ℕ) → 0 < count a (g.heap p).dependencies → count a (addresses g.tasks) ≡ 1
      once a h =
          let found = w.down v p a e h in
          omega (
            arith,
            count-addresses-pos (g.heap a).id a g.tasks found,
            count-addresses-le g.heap g.tasks g.tasks w.named (AllFound-self g.tasks w.distinct) a,
            w.distinct (g.heap a).id,
          )

  pub edges_absent : (v : ℕ) → count v ids ≡ 0 → edges ids adj ids v ≡ 0
  edges_absent v h =
      sum_of-keys (λ u. count v (adj u)) (λ _. 0) g.tasks g.tasks (AllFound-self g.tasks w.distinct)
        no_edge
      ∙ sum_of-zero (addresses g.tasks)
    where
      no_edge : (k q : ℕ) → lookup k g.tasks ≡ some q → count v (adj k) ≡ 0
      no_edge k q f = elim (dec_lt 0 (count v (adj k))) [
        | no z ↦ omega arith
        | yes edge ↦ absurd (omega (arith, target_known k q v f edge))
      ]
