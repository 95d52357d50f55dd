-- ===== src/Graph/Wired.antt =====
-- When a graph is well formed: ids are distinct, every edge joins two tasks of the map, and it
-- stands as often in the one task's dependents as in the other's dependencies.
use nexus_task.Prelude.{
  ℕ, ◌≤◌, ◌<◌, ◌≡◌, refl, ap, ◌∙◌, List, [], ◌∷◌, none, some, map, if◌then◌else◌, ◌=ℕ◌, lookup,
  nat_eq, arith, Bool-cases, inl, inr, count,
}
use nexus_task.Graph.{Graph, Heap}

abbrev pub keys {ℓ} : {V : Type ℓ} → List (ℕ × V) → List ℕ
keys = map (λ entry. entry.0)

abbrev pub addresses : List (ℕ × ℕ) → List ℕ
addresses = map (λ entry. entry.1)

pub record IsWired (g : Graph) : Type 0 where
  pub distinct : (k : ℕ) → count k (keys g.tasks) ≤ 1
  pub named : (k p : ℕ) → lookup k g.tasks ≡ some p → (g.heap p).id ≡ k
  pub up :
      (k p q : ℕ)
      → lookup k g.tasks ≡ some p
      → 0 < count q (g.heap p).dependents
      → lookup (g.heap q).id g.tasks ≡ some q
  pub down :
      (k p q : ℕ)
      → lookup k g.tasks ≡ some p
      → 0 < count q (g.heap p).dependencies
      → lookup (g.heap q).id g.tasks ≡ some q
  pub matched :
      (k p j q : ℕ)
      → lookup k g.tasks ≡ some p
      → lookup j g.tasks ≡ some q
      → count q (g.heap p).dependents ≡ count p (g.heap q).dependencies

pub lookup-none : {V : Type 0} (k : ℕ) (m : List (ℕ × V)) → count k (keys m) ≡ 0 → lookup k m ≡ none
lookup-none k [] h = refl
lookup-none k ((j, v) ∷ m) h = ground (arith, lookup-none k m)

pub lookup-some :
    {V : Type 0} (k : ℕ) (m : List (ℕ × V)) → 0 < count k (keys m) → (v : V) × (lookup k m ≡ some v)
lookup-some k [] h = absurd (omega arith)
lookup-some k ((j, v) ∷ m) h = elim (Bool-cases (j =ℕ k)) [
  | inl hit ↦ (v, ap (λ b. if b then some v else lookup k m) hit)
  | inr miss ↦
      let (w, e) = lookup-some k m (ground arith) in
      (w, ap (λ b. if b then some v else lookup k m) miss ∙ e)
]

pub count_of_lookup :
    {V : Type 0} (k : ℕ) (m : List (ℕ × V)) (v : V) → lookup k m ≡ some v → 0 < count k (keys m)
count_of_lookup k [] v h = absurd (ground arith)
count_of_lookup k ((j, w) ∷ m) v h = ground (arith, count_of_lookup k m v)

-- Every entry of a map with distinct keys is found.
abbrev pub AllFound : List (ℕ × ℕ) → List (ℕ × ℕ) → Type 0
AllFound all [] = Unit
AllFound all ((k, p) ∷ m) = (lookup k all ≡ some p) × AllFound all m

AllFound-cons :
    (k p : ℕ) (all m : List (ℕ × ℕ))
    → count k (keys m) ≡ 0
    → AllFound all m
    → AllFound ((k, p) ∷ all) m
AllFound-cons k p all [] h f = tt
AllFound-cons k p all ((j, q) ∷ m) h f = (ground arith, AllFound-cons k p all m (omega arith) f.1)

pub AllFound-self : (m : List (ℕ × ℕ)) → ((k : ℕ) → count k (keys m) ≤ 1) → AllFound m m
AllFound-self [] h = tt
AllFound-self ((k, p) ∷ m) h = (
  ground arith,
  AllFound-cons k p m m (ground (arith, h k)) (AllFound-self m (λ j. omega (arith, h j))),
)

-- An address stands in the map as often as its task's id, at most.
pub count-addresses-le :
    (heap : Heap) (all m : List (ℕ × ℕ))
    → ((k p : ℕ) → lookup k all ≡ some p → (heap p).id ≡ k)
    → AllFound all m
    → (p : ℕ) → count p (addresses m) ≤ count (heap p).id (keys m)
count-addresses-le heap all [] n f p = omega arith
count-addresses-le heap all ((k, q) ∷ m) n f p =
    ground (arith, n k q f.0, count-addresses-le heap all m n f.1 p)

pub count-addresses-pos :
    (k p : ℕ) (m : List (ℕ × ℕ)) → lookup k m ≡ some p → 0 < count p (addresses m)
count-addresses-pos k p [] h = absurd (ground arith)
count-addresses-pos k p ((j, q) ∷ m) h = ground (arith, count-addresses-pos k p m)
