-- ===== src/Queue/Fifo.antt =====
-- The contract of the queue, and that the buffer keeps it: a FIFO of at most `capacity - 1` tasks,
-- whose calls may also fail for no reason.
use nexus_task.Prelude.{
  ℕ, ◌+◌, ◌≡◌, refl, ap₂, arith, inl, inr, Bool, true, false, Option, none, some, List, [], ◌∷◌,
  ◌++◌, length, ltb, if◌then◌else◌, Bool-cases,
}
use nexus_task.Queue.{Queue, try_enqueue, try_dequeue}
use nexus_task.Queue.Cells.{
  Holds, try_enqueue_full, try_enqueue_room, try_enqueue_spurious, try_dequeue_empty,
  try_dequeue_oldest, try_dequeue_spurious,
}

-- What a producer or a consumer asks for. The flag makes `compare_exchange_weak` fail.
pub data Call {ℓ} (A : Type ℓ) : Type ℓ where
  enqueue : Bool → A → Call A
  dequeue : Bool → Call A

pub data Reply {ℓ} (A : Type ℓ) : Type ℓ where
  accepted : Bool → Reply A
  taken : Option A → Reply A

module _ {ℓ} {A : Type ℓ} where
  unfoldable pub push : ℕ → Bool → List A → A → List A × Bool
  push limit true xs x = (xs, false)
  push limit false xs x = if ltb (length xs) limit then (xs ++ x ∷ [], true) else (xs, false)

  unfoldable pub pop : Bool → List A → List A × Option A
  pop true xs = (xs, none)
  pop false [] = ([], none)
  pop false (x ∷ xs) = (xs, some x)

  -- A history of calls on the list, with the limit on the number of tasks, and its replies.
  unfoldable pub serve : ℕ → List A → List (Call A) → List A × List (Reply A)
  serve limit xs [] = (xs, [])
  serve limit xs (enqueue s x ∷ calls) =
      let (xs', done) = push limit s xs x in
      let (end, replies) = serve limit xs' calls in (end, accepted done ∷ replies)
  serve limit xs (dequeue s ∷ calls) =
      let (xs', got) = pop s xs in
      let (end, replies) = serve limit xs' calls in (end, taken got ∷ replies)

  -- The same history on the buffer.
  unfoldable pub run : Queue A → List (Call A) → Queue A × List (Reply A)
  run q [] = (q, [])
  run q (enqueue s x ∷ calls) =
      let (q', done) = try_enqueue s q x in
      let (end, replies) = run q' calls in (end, accepted done ∷ replies)
  run q (dequeue s ∷ calls) =
      let (q', got) = try_dequeue s q in
      let (end, replies) = run q' calls in (end, taken got ∷ replies)

  module _ (limit : ℕ) where
    -- `try_enqueue` answers as `push`, and the buffer holds the list that `push` leaves.
    pub try_enqueue_refines :
        (spurious : Bool) (q : Queue A) (xs : List A) (x : A)
        → q.capacity ≡ limit + 1
        → Holds q xs
        → ((try_enqueue spurious q x).1 ≡ (push limit spurious xs x).1)
          × Holds (try_enqueue spurious q x).0 (push limit spurious xs x).0
          × ((try_enqueue spurious q x).0.capacity ≡ limit + 1)
    unfolding push
    try_enqueue_refines true q xs x c v = rw (try_enqueue_spurious q x) (refl, v, c)
    try_enqueue_refines false q xs x c v = elim (Bool-cases (ltb (length xs) limit)) [
      | inl lt ↦ let (e, w) = try_enqueue_room q xs v x (ground arith) in rw (e, lt) (refl, w, c)
      | inr full ↦ rw (try_enqueue_full q xs v false x (ground (arith, v.room)), full) (refl, v, c)
    ]

    -- `try_dequeue` answers as `pop`, and the buffer holds the list that `pop` leaves.
    pub try_dequeue_refines :
        (spurious : Bool) (q : Queue A) (xs : List A)
        → q.capacity ≡ limit + 1
        → Holds q xs
        → ((try_dequeue spurious q).1 ≡ (pop spurious xs).1)
          × Holds (try_dequeue spurious q).0 (pop spurious xs).0
          × ((try_dequeue spurious q).0.capacity ≡ limit + 1)
    unfolding pop
    try_dequeue_refines true q xs c v = rw (try_dequeue_spurious q) (refl, v, c)
    try_dequeue_refines false q [] c v = rw (try_dequeue_empty false q v) (refl, v, c)
    try_dequeue_refines false q (x ∷ xs) c v =
        let (e, w) = try_dequeue_oldest q x xs v in rw e (refl, w, c)

    -- Any history of calls on a buffer of `limit + 1` cells has the replies of a list of at most
    -- `limit` tasks, oldest first, and leaves the buffer holding what the list ends with.
    pub run_refines :
        (calls : List (Call A)) (q : Queue A) (xs : List A)
        → q.capacity ≡ limit + 1
        → Holds q xs
        → ((run q calls).1 ≡ (serve limit xs calls).1)
          × Holds (run q calls).0 (serve limit xs calls).0
    unfolding run serve
    run_refines [] q xs c v = (refl, v)
    run_refines (enqueue s x ∷ calls) q xs c v =
        let (e, w, c') = try_enqueue_refines s q xs x c v in
        let (es, ws) = run_refines calls _ _ c' w in
        (ap₂ (λ done replies. accepted done ∷ replies) e es, ws)
    run_refines (dequeue s ∷ calls) q xs c v =
        let (e, w, c') = try_dequeue_refines s q xs c v in
        let (es, ws) = run_refines calls _ _ c' w in
        (ap₂ (λ got replies. taken got ∷ replies) e es, ws)
