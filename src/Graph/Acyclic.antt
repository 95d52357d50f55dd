-- ===== src/Graph/Acyclic.antt =====
-- The order that the loops leave holds every task exactly if the graph has no cycle.
use mathlib.Core.List.{append_assoc}
use native.Mathlib.Decide.{dec_lt, ℕ_discrete}
use nexus_task.Prelude.{
  ℕ, zero, suc, ◌≤◌, ◌<◌, ◌≡◌, refl, subst, List, [], ◌∷◌, ◌++◌, length, arith, count, count-append,
  sum_of-cover, position, position-append_in, position-append_out, length-Within,
}
use nexus_task.Graph.Kahn.{Respects, IsOrder, IsRanked}

module _ (ids : List ℕ) (adj : ℕ → List ℕ) (order : List ℕ) (o : IsOrder ids adj order) where
  complete_below :
      (rank : ℕ → ℕ) → IsRanked ids adj rank → (n v : ℕ) → rank v < n → count v ids ≤ count v order
  complete_below rank r zero v h = absurd (omega arith)
  complete_below rank r (suc n) v h = elim (dec_lt (count v order) (count v ids)) [
    | no done ↦ omega arith
    | yes missing ↦ absurd (
        omega (
          arith,
          o.blocked v missing,
          sum_of-cover (λ u. count v (adj u)) ids order
              (λ u edge. elim (dec_lt 0 (count u ids)) [
                | no none_there ↦ omega arith
                | yes known ↦
                    complete_below rank r n u (omega (arith, r.grows u v known (omega arith) edge))
              ]),
        ))
  ]

  -- Without a cycle every task is in the order, as often as among the tasks.
  pub complete_of_ranked :
      (rank : ℕ → ℕ) → IsRanked ids adj rank → (v : ℕ) → count v order ≡ count v ids
  complete_of_ranked rank r v =
      omega (arith, complete_below rank r (suc (rank v)) v (omega arith), o.within v)

  pub count_of_length : length order ≡ length ids → (v : ℕ) → count v order ≡ count v ids
  count_of_length e v = elim (dec_lt (count v order) (count v ids)) [
    | no done ↦ omega (arith, o.within v)
    | yes missing ↦
        absurd (omega (arith, length-Within (v ∷ order) ids (λ a. ground (arith, o.within a))))
  ]

  position-lt :
      (before vs : List ℕ) (u v : ℕ)
      → Respects ids adj before vs
      → count v before ≡ 0
      → 0 < count v vs
      → 0 < count u ids
      → 0 < count v (adj u)
      → position u (before ++ vs) < position v (before ++ vs)
  position-lt before [] u v r out in_vs known edge = absurd (omega arith)
  position-lt before (w ∷ vs) u v r out in_vs known edge = elim (ℕ_discrete w v) [
    | yes e ↦ ground (
      arith,
      position-append_in u before (w ∷ vs) (r.0 u known (rw e edge)),
      position-append_out v before (w ∷ vs) out,
    )
    | no ne ↦
        subst (λ l. position u l < position v l) (append_assoc before (w ∷ []) vs)
          (position-lt (before ++ w ∷ []) vs u v r.1
            (ground (arith, count-append v before (w ∷ []))) (ground arith) known edge)
  ]

  -- An order that holds every task is a numbering that grows along the edges.
  pub IsRanked-of_complete : length order ≡ length ids → IsRanked ids adj (λ v. position v order)
  IsRanked-of_complete e = record {
    grows = λ u v ku kv edge.
        position-lt [] order u v o.respects refl (omega (arith, count_of_length e v)) ku edge;
  }
