-- ===== src/Graph/Bridge.antt =====
-- The first loops of `topological_order` read the graph off the tasks.
use mathlib.Core.List.{append_assoc, append-nil}
use nexus_task.Prelude.{
  ℕ, ◌≤◌, ◌≡◌, refl, List, [], ◌∷◌, ◌++◌, some, if◌then◌else◌, ◌=ℕ◌, lookup, lookup_or, insert,
  lookup-insert, nat_eq, length, arith, count, max, min, Bool-cases, inl, inr,
}
use nexus_task.Graph.{Heap, indegrees, adjacencies, push_each, initial_ready, ids_of}
use nexus_task.Graph.Wired.{keys}

push_each-lookup :
    (id j : ℕ) (ds : List ℕ) (m : List (ℕ × List ℕ))
    → lookup_or j [] (push_each id ds m)
      ≡ (if id =ℕ j then lookup_or j [] m ++ ds else lookup_or j [] m)
unfolding push_each
push_each-lookup id j [] m = ground (arith, append-nil (lookup_or j [] m))
push_each-lookup id j (d ∷ ds) m = ground (
  arith,
  push_each-lookup id j ds (insert id (lookup_or id [] m ++ d ∷ []) m),
  lookup-insert id j (lookup_or id [] m ++ d ∷ []) m,
  append_assoc (lookup_or j [] m) (d ∷ []) ds,
)

pub adjacencies_absent :
    (heap : Heap) (ts : List (ℕ × ℕ)) (m : List (ℕ × List ℕ)) (j : ℕ)
    → count j (keys ts) ≡ 0
    → lookup_or j [] (adjacencies heap ts m) ≡ lookup_or j [] m
unfolding adjacencies
adjacencies_absent heap [] m j h = refl
adjacencies_absent heap ((k, p) ∷ ts) m j h = ground (
  arith,
  adjacencies_absent heap ts (push_each k (ids_of heap (heap p).dependents) m) j,
  push_each-lookup k j (ids_of heap (heap p).dependents) m,
)

pub adjacencies_present :
    (heap : Heap) (ts : List (ℕ × ℕ)) (m : List (ℕ × List ℕ)) (j p : ℕ)
    → count j (keys ts) ≤ 1
    → lookup j ts ≡ some p
    → lookup_or j [] (adjacencies heap ts m) ≡ lookup_or j [] m ++ ids_of heap (heap p).dependents
unfolding adjacencies
adjacencies_present heap [] m j p h e = absurd (ground arith)
adjacencies_present heap ((k, q) ∷ ts) m j p h e = elim (Bool-cases (k =ℕ j)) [
  | inl hit ↦ ground (
    arith,
    adjacencies_absent heap ts (push_each k (ids_of heap (heap q).dependents) m) j,
    push_each-lookup k j (ids_of heap (heap q).dependents) m,
  )
  | inr miss ↦ ground (
    arith,
    adjacencies_present heap ts (push_each k (ids_of heap (heap q).dependents) m) j p,
    push_each-lookup k j (ids_of heap (heap q).dependents) m,
  )
]

pub indegrees_absent :
    (heap : Heap) (ts m : List (ℕ × ℕ)) (j : ℕ)
    → count j (keys ts) ≡ 0
    → lookup_or j 0 (indegrees heap ts m) ≡ lookup_or j 0 m
unfolding indegrees
indegrees_absent heap [] m j h = refl
indegrees_absent heap ((k, p) ∷ ts) m j h = ground (
  arith,
  indegrees_absent heap ts (insert k (length (heap p).dependencies) m) j,
  lookup-insert k j (length (heap p).dependencies) m,
)

pub indegrees_present :
    (heap : Heap) (ts m : List (ℕ × ℕ)) (j p : ℕ)
    → count j (keys ts) ≤ 1
    → lookup j ts ≡ some p
    → lookup_or j 0 (indegrees heap ts m) ≡ length (heap p).dependencies
unfolding indegrees
indegrees_present heap [] m j p h e = absurd (ground arith)
indegrees_present heap ((k, q) ∷ ts) m j p h e = elim (Bool-cases (k =ℕ j)) [
  | inl hit ↦ ground (
    arith,
    indegrees_absent heap ts (insert k (length (heap q).dependencies) m) j,
    lookup-insert k j (length (heap q).dependencies) m,
  )
  | inr miss ↦
      ground (arith, indegrees_present heap ts (insert k (length (heap q).dependencies) m) j p)
]

pub count-keys-insert :
    (j k v : ℕ) (m : List (ℕ × ℕ))
    → count j (keys (insert k v m))
      ≡ (if k =ℕ j then max 1 (count j (keys m)) else count j (keys m))
count-keys-insert j k v [] = ground arith
count-keys-insert j k v ((i, w) ∷ m) = ground (arith, count-keys-insert j k v m)

pub count-keys-indegrees :
    (heap : Heap) (ts m : List (ℕ × ℕ)) (j : ℕ)
    → count j (keys (indegrees heap ts m)) ≡ max (min 1 (count j (keys ts))) (count j (keys m))
unfolding indegrees
count-keys-indegrees heap [] m j = omega arith
count-keys-indegrees heap ((k, p) ∷ ts) m j = ground (
  arith,
  count-keys-indegrees heap ts (insert k (length (heap p).dependencies) m) j,
  count-keys-insert j k (length (heap p).dependencies) m,
)

initial_ready-absent :
    (m : List (ℕ × ℕ)) (j : ℕ) → count j (keys m) ≡ 0 → count j (initial_ready m) ≡ 0
unfolding initial_ready
initial_ready-absent [] j h = refl
initial_ready-absent ((k, d) ∷ m) j h = ground (arith, initial_ready-absent m j)

pub count-initial_ready :
    (m : List (ℕ × ℕ)) (j : ℕ)
    → count j (keys m) ≤ 1
    → count j (initial_ready m) ≡ (if lookup_or j 0 m =ℕ 0 then count j (keys m) else 0)
unfolding initial_ready
count-initial_ready [] j h = refl
count-initial_ready ((k, d) ∷ m) j h =
    ground (arith, count-initial_ready m j, initial_ready-absent m j)
