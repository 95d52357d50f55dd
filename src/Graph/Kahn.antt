-- ===== src/Graph/Kahn.antt =====
-- The loops of `topological_order` on ids: what holds while they run. `adj u` lists the dependents
-- of `u`, `ids` the tasks.
use native.Mathlib.Decide.{dec_lt}
use nexus_task.Prelude.{
  ℕ, zero, suc, ◌+◌, ◌≤◌, ◌<◌, ◌≡◌, refl, some, List, [], ◌∷◌, ◌++◌, if◌then◌else◌, ◌=ℕ◌, lookup_or,
  insert, lookup-insert, nat_eq, length, length-append, sub64, word, arith, count, sum_of, Within,
  count-append, sum_of-append, sum_of-Within, sum_of-missing, length-Within,
}
use nexus_task.Graph.{relax, place}

module _ (ids : List ℕ) (adj : ℕ → List ℕ) where
  -- How many edges lead from the tasks in `us` to `v`.
  abbrev pub edges : List ℕ → ℕ → ℕ
  edges us v = sum_of (λ u. count v (adj u)) us

  abbrev degree_of : List (ℕ × ℕ) → ℕ → ℕ
  degree_of indegree v = lookup_or v 0 indegree

  pub record IsSimple : Type 0 where
    pub distinct : (v : ℕ) → count v ids ≤ 1
    pub closed : (u v : ℕ) → 0 < count u ids → 0 < count v (adj u) → 0 < count v ids
    pub small : (v : ℕ) → edges ids v < word

  -- `placed` are in the order, `ready` in the queue; `rest` are the dependents of the last placed
  -- task that the inner loop has still to visit.
  pub record Inv (placed ready rest : List ℕ) (indegree : List (ℕ × ℕ)) : Type 0 where
    pub degrees : (v : ℕ) → degree_of indegree v + edges placed v ≡ edges ids v + count v rest
    pub covered : (v : ℕ) → count v rest ≤ edges placed v
    pub members :
        (v : ℕ)
        → count v placed + count v ready ≡ (if degree_of indegree v =ℕ 0 then count v ids else 0)

  -- Every task of the list stands behind all of its dependencies, given those in `before`.
  abbrev pub Respects : List ℕ → List ℕ → Type 0
  Respects before [] = Unit
  Respects before (v ∷ vs) =
      ((u : ℕ) → 0 < count u ids → 0 < count v (adj u) → 0 < count u before)
      × Respects (before ++ v ∷ []) vs

  -- What the loops leave: an order of tasks that stand behind their dependencies, and for each
  -- task that is left out an edge from a task that is left out.
  pub record IsOrder (order : List ℕ) : Type 0 where
    pub within : Within order ids
    pub respects : Respects [] order
    pub blocked : (v : ℕ) → count v order < count v ids → edges order v < edges ids v

  -- A numbering of the tasks that grows along the edges: the graph has no cycle.
  pub record IsRanked (rank : ℕ → ℕ) : Type 0 where
    pub grows :
        (u v : ℕ) → 0 < count u ids → 0 < count v ids → 0 < count v (adj u) → rank u < rank v

  module _ (simple : IsSimple) where
    Inv-Within :
        {placed ready rest : List ℕ} {indegree : List (ℕ × ℕ)}
        → Inv placed ready rest indegree
        → Within placed ids
    Inv-Within inv a = ground (arith, inv.members a)

    -- One round of the inner loop.
    relax_one :
        (placed ready rest : List ℕ) (d : ℕ) (indegree : List (ℕ × ℕ))
        → 0 < count d ids
        → Inv placed ready (d ∷ rest) indegree
        → let degree = sub64 (degree_of indegree d) 1 in
          Inv placed
            (if degree =ℕ 0 then ready ++ d ∷ [] else ready)
            rest
            (insert d degree indegree)
    relax_one placed ready rest d indegree known inv = record {
      degrees = λ v. ground (
        arith,
        lookup-insert d v (sub64 (degree_of indegree d) 1) indegree,
        inv.degrees v,
        bounds,
      );
      covered = λ v. ground (arith, inv.covered v);
      members = λ v. ground (
        arith,
        lookup-insert d v (sub64 (degree_of indegree d) 1) indegree,
        inv.members v,
        bounds,
        simple.distinct d,
        count-append v ready (d ∷ []),
      );
    }
      where
        bounds : (0 < degree_of indegree d) × (degree_of indegree d < word)
        bounds = ground (
          arith,
          inv.degrees d,
          inv.covered d,
          simple.small d,
          sum_of-Within (λ u. count d (adj u)) placed ids (Inv-Within inv),
        )

    abbrev AllKnown : List ℕ → Type 0
    AllKnown ds = (d : ℕ) → 0 < count d ds → 0 < count d ids

    relax_all :
        (placed rest ready : List ℕ) (indegree : List (ℕ × ℕ))
        → AllKnown rest
        → Inv placed ready rest indegree
        → Inv placed (relax rest indegree ready).1 [] (relax rest indegree ready).0
    unfolding relax
    relax_all placed [] ready indegree known inv = inv
    relax_all placed (d ∷ rest) ready indegree known inv =
        relax_all placed rest _ _ (λ e p. known e (omega arith))
          (relax_one placed ready rest d indegree (known d (ground arith)) inv)

    -- The first task of the queue goes to the end of the order.
    pop_one :
        (placed ready : List ℕ) (id : ℕ) (indegree : List (ℕ × ℕ))
        → Inv placed (id ∷ ready) [] indegree
        → Inv (placed ++ id ∷ []) ready (adj id) indegree
    pop_one placed ready id indegree inv = record {
      degrees =
          λ v. omega (arith, inv.degrees v, sum_of-append (λ u. count v (adj u)) placed (id ∷ []));
      covered = λ v. omega (arith, sum_of-append (λ u. count v (adj u)) placed (id ∷ []));
      members = λ v. omega (arith, inv.members v, count-append v placed (id ∷ []));
    }

    Respects-snoc :
        (before vs : List ℕ) (v : ℕ)
        → Respects before vs
        → ((u : ℕ) → 0 < count u ids → 0 < count v (adj u) → 0 < count u (before ++ vs))
        → Respects before (vs ++ v ∷ [])
    Respects-snoc before [] v r h = (λ u k e. omega (arith, h u k e, count-append u before []), tt)
    Respects-snoc before (w ∷ vs) v r h = (
      r.0,
      Respects-snoc (before ++ w ∷ []) vs v r.1 (λ u k e. omega (
        arith,
        h u k e,
        count-append u before (w ∷ vs),
        count-append u (before ++ w ∷ []) vs,
        count-append u before (w ∷ []),
      )),
    )

    -- A task in the queue has all of its dependencies placed.
    ready_after :
        (placed ready : List ℕ) (id : ℕ) (indegree : List (ℕ × ℕ))
        → Inv placed (id ∷ ready) [] indegree
        → (u : ℕ) → 0 < count u ids
        → 0 < count id (adj u)
        → 0 < count u placed
    ready_after placed ready id indegree inv u known edge = elim (dec_lt 0 (count u placed)) [
      | yes p ↦ p
      | no missing ↦ absurd (
          ground (
            arith,
            inv.members id,
            inv.degrees id,
            sum_of-missing (λ w. count id (adj w)) u placed ids (Inv-Within inv) (omega arith),
          ))
    ]

    finish :
        (placed : List ℕ) (indegree : List (ℕ × ℕ))
        → Inv placed [] [] indegree
        → Respects [] placed
        → IsOrder placed
    finish placed indegree inv r = record {
      within = Inv-Within inv;
      respects = r;
      blocked = λ v lt. ground (arith, inv.members v, inv.degrees v);
    }

    -- The loop ends, if it has a round for each task that is not placed.
    pub place_total :
        (fuel : ℕ) (placed ready : List ℕ) (indegree : List (ℕ × ℕ))
        → length ids ≤ fuel + length placed
        → Inv placed ready [] indegree
        → Respects [] placed
        → (order : List ℕ) × (place fuel adj indegree ready placed ≡ some order) × IsOrder order
    unfolding place
    place_total zero placed [] indegree f inv r = (placed, refl, finish placed indegree inv r)
    place_total (suc fuel) placed [] indegree f inv r = (placed, refl, finish placed indegree inv r)
    place_total zero placed (id ∷ ready) indegree f inv r = absurd (
        omega (
          arith,
          length-append placed (id ∷ []),
          length-Within (placed ++ id ∷ []) ids (Inv-Within (pop_one placed ready id indegree inv)),
        ))
    place_total (suc fuel) placed (id ∷ ready) indegree f inv r =
        place_total fuel (placed ++ id ∷ []) _ _ (omega (arith, length-append placed (id ∷ [])))
          (relax_all (placed ++ id ∷ []) (adj id) ready indegree
            (λ d p. simple.closed id d (ground (arith, inv.members id)) p)
            (pop_one placed ready id indegree inv))
          (Respects-snoc [] placed id r (ready_after placed ready id indegree inv))

    -- The start of the loop.
    pub start-Inv :
        (ready : List ℕ) (indegree : List (ℕ × ℕ))
        → ((v : ℕ) → degree_of indegree v ≡ edges ids v)
        → ((v : ℕ) → count v ready ≡ (if edges ids v =ℕ 0 then count v ids else 0))
        → Inv [] ready [] indegree
    start-Inv ready indegree d r = record {
      degrees = λ v. omega (arith, d v);
      covered = λ v. omega arith;
      members = λ v. ground (arith, d v, r v);
    }
