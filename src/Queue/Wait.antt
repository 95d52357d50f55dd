-- ===== src/Queue/Wait.antt =====
-- The loops that repeat an attempt until a deadline, while other threads use the queue in between.
use nexus_task.Prelude.{
  ℕ, ◌+◌, ◌≤◌, ◌≡◌, ◌⊎◌, inl, inr, refl, arith, Bool, true, false, Option, none, some, List, [],
  ◌∷◌, ltb, if◌then◌else◌, Bool-cases, Option-cases, subst, ap,
}
use nexus_task.Queue.{Queue, try_enqueue, try_dequeue}
use nexus_task.Queue.Cells.{Holds}
use nexus_task.Queue.Fifo.{
  Call, enqueue, dequeue, push, pop, serve, run, run_refines, try_enqueue_refines,
  try_dequeue_refines,
}

-- One round: what the others call before it, the reading of the clock, and whether the exchange of
-- the attempt fails for no reason.
pub record Round {ℓ} (A : Type ℓ) : Type ℓ where
  pub others : List (Call A)
  pub now : ℕ
  pub spurious : Bool

module _ {ℓ} {A : Type ℓ} where
  -- `none` is a thread that still waits after these rounds.
  unfoldable pub wait_enqueue_until : A → ℕ → List (Round A) → Queue A → Option (Queue A × Bool)
  wait_enqueue_until task deadline [] q = none
  wait_enqueue_until task deadline (r ∷ rounds) q =
      let met = (run q r.others).0 in
      let (q', done) = try_enqueue r.spurious met task in
      let rest = wait_enqueue_until task deadline rounds q' in
      if ltb r.now deadline then if done then some (q', true) else rest else some (met, false)

  -- `wait_enqueue_for` at time `start`.
  unfoldable pub wait_enqueue_for : A → ℕ → ℕ → List (Round A) → Queue A → Option (Queue A × Bool)
  unfolding wait_enqueue_until
  wait_enqueue_for task start timeout rounds q = wait_enqueue_until task (start + timeout) rounds q

  unfoldable pub wait_dequeue_until : ℕ → List (Round A) → Queue A → Option (Queue A × Option A)
  wait_dequeue_until deadline [] q = none
  wait_dequeue_until deadline (r ∷ rounds) q =
      let met = (run q r.others).0 in
      let (q', task) = try_dequeue r.spurious met in
      let rest = wait_dequeue_until deadline rounds q' in
      if ltb r.now deadline
      then elim task [ some t ↦ some (q', some t) | none ↦ rest ]
      else some (met, none)

  unfoldable pub wait_dequeue_for : ℕ → ℕ → List (Round A) → Queue A → Option (Queue A × Option A)
  unfolding wait_dequeue_until
  wait_dequeue_for start timeout rounds q = wait_dequeue_until (start + timeout) rounds q

  -- The same on a list of at most `limit` tasks.
  unfoldable pub wait_push : ℕ → A → ℕ → List (Round A) → List A → Option (List A × Bool)
  unfolding serve push
  wait_push limit task deadline [] xs = none
  wait_push limit task deadline (r ∷ rounds) xs =
      let met = (serve limit xs r.others).0 in
      let (xs', done) = push limit r.spurious met task in
      let rest = wait_push limit task deadline rounds xs' in
      if ltb r.now deadline then if done then some (xs', true) else rest else some (met, false)

  unfoldable pub wait_pop : ℕ → ℕ → List (Round A) → List A → Option (List A × Option A)
  unfolding serve pop
  wait_pop limit deadline [] xs = none
  wait_pop limit deadline (r ∷ rounds) xs =
      let met = (serve limit xs r.others).0 in
      let (xs', task) = pop r.spurious met in
      let rest = wait_pop limit deadline rounds xs' in
      if ltb r.now deadline
      then elim task [ some t ↦ some (xs', some t) | none ↦ rest ]
      else some (met, none)

  -- Both still wait, or both answer the same and the buffer holds the list.
  pub data Agree {κ} {B : Type κ} : Option (Queue A × B) → Option (List A × B) → Type (ℓ ⊔ κ) where
    both_wait : Agree none none
    both_answer :
        {q : Queue A} {xs : List A} {b c : B}
        → b ≡ c
        → Holds q xs
        → Agree (some (q, b)) (some (xs, c))

  -- The clock has reached the deadline in one of the rounds.
  abbrev pub Reached : ℕ → List (Round A) → Type 0
  Reached deadline [] = ⊥
  Reached deadline (r ∷ rounds) = (deadline ≤ r.now) ⊎ Reached deadline rounds

  module _ (limit : ℕ) where
    run-capacity :
        (calls : List (Call A)) (q : Queue A) (xs : List A)
        → q.capacity ≡ limit + 1
        → Holds q xs
        → (run q calls).0.capacity ≡ limit + 1
    unfolding run
    run-capacity [] q xs c v = c
    run-capacity (enqueue s x ∷ calls) q xs c v =
        let (e, w, c') = try_enqueue_refines limit s q xs x c v in run-capacity calls _ _ c' w
    run-capacity (dequeue s ∷ calls) q xs c v =
        let (e, w, c') = try_dequeue_refines limit s q xs c v in run-capacity calls _ _ c' w

    pub wait_enqueue_until_refines :
        (task : A) (deadline : ℕ) (rounds : List (Round A)) (q : Queue A) (xs : List A)
        → q.capacity ≡ limit + 1
        → Holds q xs
        → Agree
            (wait_enqueue_until task deadline rounds q)
            (wait_push limit task deadline rounds xs)
    unfolding wait_enqueue_until wait_push
    wait_enqueue_until_refines task deadline [] q xs c v = both_wait
    wait_enqueue_until_refines task deadline (r ∷ rounds) q xs c v =
        let met = (run_refines limit r.others q xs c v).1 in
        let c' = run-capacity r.others q xs c v in
        let (e, w, c'') = try_enqueue_refines limit r.spurious _ _ task c' met in
        let rest = wait_enqueue_until_refines task deadline rounds _ _ c'' w in
        elim (Bool-cases (ltb r.now deadline)) [
          | inl early ↦
              elim (Bool-cases (push limit r.spurious (serve limit xs r.others).0 task).1) [
                | inl done ↦ rw (early, e, done) (both_answer refl w)
                | inr not_done ↦ rw (early, e, not_done) rest
              ]
          | inr late ↦ rw late (both_answer refl met)
        ]

    pub wait_dequeue_until_refines :
        (deadline : ℕ) (rounds : List (Round A)) (q : Queue A) (xs : List A)
        → q.capacity ≡ limit + 1
        → Holds q xs
        → Agree (wait_dequeue_until deadline rounds q) (wait_pop limit deadline rounds xs)
    unfolding wait_dequeue_until wait_pop
    wait_dequeue_until_refines deadline [] q xs c v = both_wait
    wait_dequeue_until_refines deadline (r ∷ rounds) q xs c v =
        let met = (run_refines limit r.others q xs c v).1 in
        let c' = run-capacity r.others q xs c v in
        let (e, w, c'') = try_dequeue_refines limit r.spurious _ _ c' met in
        let rest = wait_dequeue_until_refines deadline rounds _ _ c'' w in
        elim (Bool-cases (ltb r.now deadline)) [
          | inl early ↦ elim (Option-cases (pop r.spurious (serve limit xs r.others).0).1) [
            | inl nothing ↦ rw (early, e, nothing) rest
            | inr (t, got) ↦ rw (early, e, got) (both_answer refl w)
          ]
          | inr late ↦ rw late (both_answer refl met)
        ]

    wait_push-ends :
        (task : A) (deadline : ℕ) (rounds : List (Round A)) (xs : List A)
        → Reached deadline rounds
        → (end : List A × Bool) × (wait_push limit task deadline rounds xs ≡ some end)
    unfolding wait_push
    wait_push-ends task deadline [] xs late = absurd late
    wait_push-ends task deadline (r ∷ rounds) xs late =
        let met = (serve limit xs r.others).0 in
        let attempt = push limit r.spurious met task in
        elim (Bool-cases (ltb r.now deadline)) [
          | inl early ↦ elim (Bool-cases attempt.1) [
            | inl done ↦ ((attempt.0, true), rw (early, done) refl)
            | inr not_done ↦
                let (end, e) =
                  wait_push-ends task deadline rounds attempt.0 (ground (arith, late, early)) in
                (end, rw (early, not_done) e)
          ]
          | inr over ↦ ((met, false), rw over refl)
        ]

    wait_pop-ends :
        (deadline : ℕ) (rounds : List (Round A)) (xs : List A)
        → Reached deadline rounds
        → (end : List A × Option A) × (wait_pop limit deadline rounds xs ≡ some end)
    unfolding wait_pop
    wait_pop-ends deadline [] xs late = absurd late
    wait_pop-ends deadline (r ∷ rounds) xs late =
        let met = (serve limit xs r.others).0 in
        let attempt = pop r.spurious met in
        elim (Bool-cases (ltb r.now deadline)) [
          | inl early ↦ elim (Option-cases attempt.1) [
            | inl nothing ↦
                let (end, e) =
                  wait_pop-ends deadline rounds attempt.0 (ground (arith, late, early)) in
                (end, rw (early, nothing) e)
            | inr (t, got) ↦ ((attempt.0, some t), rw (early, got) refl)
          ]
          | inr over ↦ ((met, none), rw over refl)
        ]

    agreed {κ} :
        {B : Type κ} (code : Option (Queue A × B)) (xs : List A) (b : B)
        → Agree code (some (xs, b))
        → (q : Queue A) × (code ≡ some (q, b)) × Holds q xs
    agreed none xs b agree = elim agree [ ]
    agreed (some (q, a)) xs b (both_answer same holds) = (q, ap (λ c. some (q, c)) same, holds)

    -- `wait_enqueue_until` on a buffer of `limit + 1` cells, whatever the other threads call between
    -- its attempts, if in some round the clock has reached the deadline: it returns, with the answer
    -- of the same wait on a list of at most `limit` tasks, and the buffer holds what that list is.
    pub wait_enqueue_until_lem :
        (task : A) (deadline : ℕ) (rounds : List (Round A)) (q : Queue A) (xs : List A)
        → q.capacity ≡ limit + 1
        → Holds q xs
        → Reached deadline rounds
        → (q' : Queue A) × (xs' : List A) × (done : Bool) × (wait_enqueue_until task deadline rounds
              q
            ≡ some (q', done))
          × (wait_push limit task deadline rounds xs ≡ some (xs', done))
          × Holds q' xs'
    wait_enqueue_until_lem task deadline rounds q xs c v late =
        let ((xs', done), e) = wait_push-ends task deadline rounds xs late in
        let agree = wait_enqueue_until_refines task deadline rounds q xs c v in
        let (q', f, holds) = agreed _ xs' done (subst (Agree _) e agree) in
        (q', xs', done, f, e, holds)

    -- `wait_dequeue_until` on a buffer of `limit + 1` cells, whatever the other threads call between
    -- its attempts, if in some round the clock has reached the deadline: it returns, with the answer
    -- of the same wait on a list of at most `limit` tasks, and the buffer holds what that list is.
    pub wait_dequeue_until_lem :
        (deadline : ℕ) (rounds : List (Round A)) (q : Queue A) (xs : List A)
        → q.capacity ≡ limit + 1
        → Holds q xs
        → Reached deadline rounds
        → (q' : Queue A) × (xs' : List A) × (got : Option A) × (wait_dequeue_until deadline rounds q
            ≡ some (q', got))
          × (wait_pop limit deadline rounds xs ≡ some (xs', got))
          × Holds q' xs'
    wait_dequeue_until_lem deadline rounds q xs c v late =
        let ((xs', got), e) = wait_pop-ends deadline rounds xs late in
        let agree = wait_dequeue_until_refines deadline rounds q xs c v in
        let (q', f, holds) = agreed _ xs' got (subst (Agree _) e agree) in
        (q', xs', got, f, e, holds)
