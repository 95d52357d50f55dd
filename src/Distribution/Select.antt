-- ===== src/Distribution/Select.antt =====
-- Which node a policy selects.
use nexus_task.Prelude.{
  ℕ, zero, suc, ◌+◌, ◌-◌, ◌%◌, ◌≤◌, ◌<◌, ◌≡◌, ◌⊎◌, refl, ap, sym, subst, ◌∙◌, true, false, ◌&&◌,
  Option, none, some, List, [], ◌∷◌, ltb, length, get_elem?, arith, inl, inr, Bool-cases,
  Option-cases, word, add64,
}
use native.Mathlib.Decide.{dec_lt}
use nexus_task.Queue.Cells.{wrap_cases}
use nexus_task.Distribution.{
  NodeInfo, Distributed, eligible, select_by, select_node, least_loaded, round_robin,
  least_loaded_from, round_robin_from,
}

-- The steps of a round visit every node.
step_to : (n cursor j : ℕ) → cursor < n → j < n → (i : ℕ) × (i < n) × ((cursor + i) % n ≡ j)
step_to n cursor j hc hj = elim (dec_lt j cursor) [
  | yes before ↦ (
    j + n - cursor,
    omega (arith, before),
    omega (arith, before, wrap_cases n (cursor + (j + n - cursor)) (omega (arith, before))),
  )
  | no after ↦ (
    j - cursor,
    omega (arith, after),
    omega (arith, after, wrap_cases n (cursor + (j - cursor)) (omega (arith, after))),
  )
]

module _ {E : Type 0} where
  -- No node with room has a smaller load.
  abbrev pub NoneBelow : ℕ → List (NodeInfo E) → Type 0
  NoneBelow load [] = Unit
  NoneBelow load (n ∷ ns) = ((eligible n && ltb n.current_load load) ≡ false) × NoneBelow load ns

  -- What the search for a load below `min_load` finds: the old candidate if there is none, and else
  -- a node with room whose load is least.
  abbrev pub LeastOf : ℕ → List (NodeInfo E) → ℕ → Option ℕ → Option ℕ → Type 0
  LeastOf i nodes min_load candidate r =
      ((r ≡ candidate) × NoneBelow min_load nodes)
      ⊎ ((k : ℕ) × (n : NodeInfo E) × (r ≡ some (i + k))
          × (get_elem? nodes k ≡ some n)
          × (eligible n ≡ true)
          × (n.current_load < min_load)
          × NoneBelow n.current_load nodes)

  -- `LeastLoaded` selects a node that is reachable and has room, and of those one with the least
  -- load; it selects none only if there is none with a load below the limit of the search.
  pub least_loaded_from_lem :
      (i : ℕ) (nodes : List (NodeInfo E)) (min_load : ℕ) (candidate : Option ℕ)
      → LeastOf i nodes min_load candidate (least_loaded_from i nodes min_load candidate)
  unfolding least_loaded_from
  least_loaded_from_lem i [] min_load candidate = inl (refl, tt)
  least_loaded_from_lem i (n ∷ ns) min_load candidate =
      elim (Bool-cases
        (n.reachable && (ltb n.current_load min_load && ltb n.current_load n.capacity))) [
          | inl better ↦
              rw better (elim (least_loaded_from_lem (i + 1) ns n.current_load (some i)) [
                | inl (e, below) ↦ inr (
                  0,
                  n,
                  e ∙ ap some (omega arith),
                  refl,
                  ground (arith, better),
                  ground (arith, better),
                  (ground arith, below),
                )
                | inr (k, m, e, found, ok, less, below) ↦ inr (
                  suc k,
                  m,
                  e ∙ ap some (omega arith),
                  found,
                  ok,
                  ground (arith, better, less),
                  (ground (arith, less), below),
                )
              ])
          | inr worse ↦ rw worse (elim (least_loaded_from_lem (i + 1) ns min_load candidate) [
            | inl (e, below) ↦ inl (e, (ground (arith, worse), below))
            | inr (k, m, e, found, ok, less, below) ↦ inr (
              suc k,
              m,
              e ∙ ap some (omega arith),
              found,
              ok,
              less,
              (ground (arith, worse, less), below),
            )
          ])
        ]

  -- No node is reachable and has room.
  abbrev pub NoneEligible : List (NodeInfo E) → Type 0
  NoneEligible [] = Unit
  NoneEligible (n ∷ ns) = (eligible n ≡ false) × NoneEligible ns

  -- The node at an index, if there is one, is not eligible.
  abbrev Barred : List (NodeInfo E) → ℕ → Type 0
  Barred nodes index = (n : NodeInfo E) → get_elem? nodes index ≡ some n → eligible n ≡ false

  NoneEligible-intro :
      (nodes : List (NodeInfo E))
      → ((j : ℕ) → j < length nodes → Barred nodes j)
      → NoneEligible nodes
  NoneEligible-intro [] h = tt
  NoneEligible-intro (n ∷ ns) h =
      (h 0 (omega arith) n refl, NoneEligible-intro ns (λ j less. h (suc j) (omega (arith, less))))

  -- A node with room.
  abbrev pub Selects : List (NodeInfo E) → Option ℕ → Type 0
  Selects nodes none = NoneEligible nodes
  Selects nodes (some index) =
      (n : NodeInfo E) × (get_elem? nodes index ≡ some n) × (eligible n ≡ true)

  -- What the steps from `i` on find.
  abbrev Round : List (NodeInfo E) → ℕ → ℕ → ℕ → Option ℕ → Type 0
  Round nodes left i cursor none =
      (s : ℕ) → i ≤ s → s < i + left → Barred nodes (add64 cursor s % length nodes)
  Round nodes left i cursor (some index) =
      (n : NodeInfo E) × (get_elem? nodes index ≡ some n) × (eligible n ≡ true)

  -- A step that finds nothing.
  Round-step :
      (nodes : List (NodeInfo E)) (left i cursor : ℕ) (r : Option ℕ)
      → Barred nodes (add64 cursor i % length nodes)
      → Round nodes left (i + 1) cursor r
      → Round nodes (suc left) i cursor r
  Round-step nodes left i cursor (some index) b r = r
  Round-step nodes left i cursor none b r = λ s lo hi. elim (dec_lt i s) [
    | yes less ↦ r s (omega (arith, less)) (omega (arith, hi))
    | no same ↦
        let here : i ≡ s = omega (arith, lo, same) in
        subst (λ k. Barred nodes (add64 cursor k % length nodes)) here b
  ]

  round_robin_from_lem :
      (nodes : List (NodeInfo E)) (left i cursor : ℕ)
      → Round nodes left i cursor (round_robin_from left i cursor nodes)
  unfolding round_robin_from
  round_robin_from_lem nodes zero i cursor = λ s lo hi. absurd (omega (arith, lo, hi))
  round_robin_from_lem nodes (suc left) i cursor =
      let index = add64 cursor i % length nodes in
      let rest = round_robin_from_lem nodes left (i + 1) cursor in
      elim (Option-cases (get_elem? nodes index)) [
        | inl e ↦
            rw (e, round_robin_from)
              (Round-step nodes left i cursor (round_robin_from left (i + 1) cursor nodes)
                (λ n f. ground (arith, e, f)) rest)
        | inr (x, e) ↦ elim (Bool-cases (eligible x)) [
          | inl ok ↦ rw (e, ok, round_robin_from) (x, e, ok)
          | inr full ↦
              rw (e, full, round_robin_from)
                (Round-step nodes left i cursor (round_robin_from left (i + 1) cursor nodes)
                  (λ n f.
                    ap (λ o. elim o [ none ↦ false | some y ↦ eligible y ]) (sym f ∙ e) ∙ full)
                  rest)
        ]
      ]

  -- `RoundRobin` selects a node that is reachable and has room, if there is one.
  pub round_robin_lem :
      (nodes : List (NodeInfo E)) (cursor : ℕ)
      → cursor < length nodes
      → length nodes + length nodes < word
      → Selects nodes (round_robin_from (length nodes) 0 cursor nodes)
  round_robin_lem nodes cursor h small =
      elim (Option-cases (round_robin_from (length nodes) 0 cursor nodes)) [
        | inr (index, e) ↦ rw e (
            subst (Round nodes (length nodes) 0 cursor) e
              (round_robin_from_lem nodes (length nodes) 0 cursor))
        | inl e ↦
            let barred =
              subst (Round nodes (length nodes) 0 cursor) e
                (round_robin_from_lem nodes (length nodes) 0 cursor) in
            rw e (
              NoneEligible-intro nodes (λ j less.
                let (i, lt_n, lands) = step_to (length nodes) cursor j h less in
                subst (Barred nodes)
                  (let same : add64 cursor i ≡ cursor + i = omega (arith, lt_n) in
                    ap (λ k. k % length nodes) same ∙ lands)
                  (barred i (omega arith) (omega (arith, lt_n)))))
      ]

  -- Under `LeastLoaded`, `select_node` selects a node that is reachable and has room, and of those
  -- one with the least load; it selects none only if there is no such node with a load below 2^64 - 1.
  pub select_node-LeastOf :
      (d : Distributed E)
      → d.policy ≡ least_loaded
      → LeastOf 0 d.nodes (word - 1) none (select_node d).1
  unfolding select_node select_by
  select_node-LeastOf d e =
      subst (λ policy. LeastOf 0 d.nodes (word - 1) none (select_by policy d).1) (sym e)
        (least_loaded_from_lem 0 d.nodes (word - 1) none)

  -- Under `RoundRobin`, with a cursor within fewer than 2^63 nodes, `select_node` selects a node that
  -- is reachable and has room if there is one, and the cursor stays within the nodes.
  pub select_node-Selects :
      (d : Distributed E)
      → d.policy ≡ round_robin
      → d.round_robin_cursor < length d.nodes
      → length d.nodes + length d.nodes < word
      → Selects d.nodes (select_node d).1 × ((select_node d).0.round_robin_cursor < length d.nodes)
  unfolding select_node select_by
  select_node-Selects d e h small =
      let nodes = d.nodes in
      let cursor = d.round_robin_cursor in
      let found = round_robin_lem nodes cursor h small in
      subst
        (λ policy.
          Selects nodes (select_by policy d).1
          × ((select_by policy d).0.round_robin_cursor < length nodes))
        (sym e)
        (elim (Option-cases (round_robin_from (length nodes) 0 cursor nodes)) [
          | inl f ↦ rw (f, select_by) (subst (Selects nodes) f found, h)
          | inr (index, f) ↦ rw (f, select_by) (subst (Selects nodes) f found, omega (arith, h))
        ])
