-- ===== src/Graph/Remove.antt =====
-- `remove_task` takes the task and all its edges out of a well-formed graph.
use nexus_task.Prelude.{
  ℕ, ◌≤◌, ◌≡◌, ◌≢◌, refl, sym, ◌∙◌, subst, List, [], ◌∷◌, none, some, if◌then◌else◌, ◌=ℕ◌, lookup,
  erase, lookup-erase, nat_eq, arith, count, ltb, false, true, inl, inr, Option-cases, has,
}
use nexus_task.Graph.{
  Graph, Heap, modify, remove_task, remove_all, detach_dependent, detach_dependency,
  detach_dependents, detach_dependencies, contains,
}
use nexus_task.Graph.Wired.{IsWired, keys}

count-remove_all :
    (x a : ℕ) (xs : List ℕ) → count a (remove_all x xs) ≡ (if x =ℕ a then 0 else count a xs)
count-remove_all x a [] = ground arith
count-remove_all x a (y ∷ xs) = ground (arith, count-remove_all x a xs)

remove_all_twice : (x : ℕ) (xs : List ℕ) → remove_all x (remove_all x xs) ≡ remove_all x xs
remove_all_twice x [] = refl
remove_all_twice x (y ∷ xs) = ground (arith, remove_all_twice x xs)

pub detach_dependents_fields :
    (p q : ℕ) (ds : List ℕ) (heap : Heap)
    → ((detach_dependents p ds heap q).id ≡ (heap q).id)
      × ((detach_dependents p ds heap q).dependencies ≡ (heap q).dependencies)
      × ((detach_dependents p ds heap q).dependents
          ≡ (if ltb 0 (count q ds) then remove_all p (heap q).dependents else (heap q).dependents))
unfolding detach_dependents
detach_dependents_fields p q [] heap = (refl, refl, refl)
detach_dependents_fields p q (d ∷ ds) heap =
    let rest = detach_dependents_fields p q ds (modify (detach_dependent p) d heap) in
    (
      ground (arith, rest),
      ground (arith, rest),
      ground (arith, rest, remove_all_twice p (heap q).dependents),
    )

pub detach_dependencies_fields :
    (p q : ℕ) (ds : List ℕ) (heap : Heap)
    → ((detach_dependencies p ds heap q).id ≡ (heap q).id)
      × ((detach_dependencies p ds heap q).dependents ≡ (heap q).dependents)
      × ((detach_dependencies p ds heap q).dependencies ≡ (
          if ltb 0 (count q ds) then remove_all p (heap q).dependencies else (heap q).dependencies))
unfolding detach_dependencies
detach_dependencies_fields p q [] heap = (refl, refl, refl)
detach_dependencies_fields p q (d ∷ ds) heap =
    let rest = detach_dependencies_fields p q ds (modify (detach_dependency p) d heap) in
    (
      ground (arith, rest),
      ground (arith, rest),
      ground (arith, rest, remove_all_twice p (heap q).dependencies),
    )

count-keys-erase : (j k : ℕ) (m : List (ℕ × ℕ)) → count j (keys (erase k m)) ≤ count j (keys m)
count-keys-erase j k [] = omega arith
count-keys-erase j k ((i, v) ∷ m) = ground (arith, count-keys-erase j k m)

-- The heap that `remove_task` leaves, for the task at `p`.
abbrev pub detached : ℕ → Heap → Heap
detached p heap =
    let heap' = detach_dependents p (heap p).dependencies heap in
    detach_dependencies p (heap' p).dependents heap'

module _ (g : Graph) (w : IsWired g) (id p : ℕ) (found : lookup id g.tasks ≡ some p) where
  -- Edges to and from the removed task are gone, all others stay.
  detached_edges :
      (k r : ℕ)
      → lookup k g.tasks ≡ some r
      → k ≢ id
      → ((detached p g.heap r).id ≡ (g.heap r).id)
        × ((q : ℕ)
            → count q (detached p g.heap r).dependents
              ≡ (if p =ℕ q then 0 else count q (g.heap r).dependents))
        × ((q : ℕ)
            → count q (detached p g.heap r).dependencies
              ≡ (if p =ℕ q then 0 else count q (g.heap r).dependencies))
  detached_edges k r e ne =
      let heap' = detach_dependents p (g.heap p).dependencies g.heap in
      let first = detach_dependents_fields p r (g.heap p).dependencies g.heap in
      let self = detach_dependents_fields p p (g.heap p).dependencies g.heap in
      let second = detach_dependencies_fields p r (heap' p).dependents heap' in
      (
        ground (arith, first, second),
        λ q. ground (
          arith,
          first,
          second,
          count-remove_all p q (g.heap r).dependents,
          w.matched k r id p e found,
        ),
        λ q. ground (
          arith,
          first,
          second,
          self,
          count-remove_all p q (g.heap r).dependencies,
          count-remove_all p r (g.heap p).dependents,
          w.named k r,
          w.named id p,
          w.matched id p k r found e,
        ),
      )

  survives :
      (k r : ℕ) → lookup k (erase id g.tasks) ≡ some r → (k ≢ id) × (lookup k g.tasks ≡ some r)
  survives k r e =
      (λ same. ground (arith, lookup-erase id k g.tasks), ground (arith, lookup-erase id k g.tasks))

  -- The target of an edge that is left is not the removed task.
  target_survives :
      (q i : ℕ)
      → p ≢ q
      → i ≡ (g.heap q).id
      → lookup (g.heap q).id g.tasks ≡ some q
      → lookup i (erase id g.tasks) ≡ some q
  target_survives q i ne e f = ground (arith, lookup-erase id i g.tasks)

  module _ (after : Heap)
      (fields : (k r : ℕ)
        → lookup k g.tasks ≡ some r
        → k ≢ id
        → ((after r).id ≡ (g.heap r).id)
          × ((q : ℕ)
              → count q (after r).dependents
                ≡ (if p =ℕ q then 0 else count q (g.heap r).dependents))
          × ((q : ℕ)
              → count q (after r).dependencies
                ≡ (if p =ℕ q then 0 else count q (g.heap r).dependencies))) where
    target :
        (q : ℕ)
        → p ≢ q
        → lookup (g.heap q).id g.tasks ≡ some q
        → lookup (after q).id (erase id g.tasks) ≡ some q
    target q ne f =
        target_survives q (after q).id ne
          (fields (g.heap q).id q f (λ same.
            let h : lookup id g.tasks ≡ some q = subst (λ i. lookup i g.tasks ≡ some q) same f in
            ne (cc))).0
          f

    removed-IsWired : IsWired (record { heap = after; tasks = erase id g.tasks })
    removed-IsWired = record {
      distinct = λ k. omega (arith, w.distinct k, count-keys-erase k id g.tasks);
      named = λ k r e. let (ne, f) = survives k r e in (fields k r f ne).0 ∙ w.named k r f;
      up = λ k r q e h.
          let (ne, f) = survives k r e in
          let c = (fields k r f ne).1 q in target q (ground arith) (w.up k r q f (ground arith));
      down = λ k r q e h.
          let (ne, f) = survives k r e in
          let c = (fields k r f ne).2 q in target q (ground arith) (w.down k r q f (ground arith));
      matched = λ k r j q e f.
          let (ne, e') = survives k r e in
          let (nf, f') = survives j q f in
          ground (
            arith,
            (fields k r e' ne).1 q,
            (fields j q f' nf).2 r,
            w.matched k r j q e' f',
            w.named k r e',
            w.named j q f',
            w.named id p found,
          );
    }

has_of_none : (k : ℕ) (m : List (ℕ × ℕ)) → lookup k m ≡ none → has k m ≡ false
has_of_none k [] e = refl
has_of_none k ((j, v) ∷ m) e = ground (arith, has_of_none k m)

has_of_some : (k : ℕ) (m : List (ℕ × ℕ)) (v : ℕ) → lookup k m ≡ some v → has k m ≡ true
has_of_some k [] v e = cc
has_of_some k ((j, x) ∷ m) v e = ground (arith, has_of_some k m v)

-- `remove_task` keeps the graph well formed, and the id is gone; it answers whether the id was
-- there.
pub remove_task-IsWired :
    (id : ℕ) (g : Graph)
    → IsWired g
    → IsWired (remove_task id g).0
      × ((remove_task id g).1 ≡ contains id g)
      × (contains id (remove_task id g).0 ≡ false)
unfolding remove_task contains
remove_task-IsWired id g w = elim (Option-cases (lookup id g.tasks)) [
  | inl e ↦ let out = has_of_none id g.tasks e in rw (e, remove_task) (w, sym out, out)
  | inr (p, e) ↦
      rw (e, remove_task)
        (
          removed-IsWired g w id p e (detached p g.heap) (detached_edges g w id p e),
          sym (has_of_some id g.tasks p e),
          has_of_none id (erase id g.tasks) (ground (arith, lookup-erase id id g.tasks)),
        )
]
