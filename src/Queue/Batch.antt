-- ===== src/Queue/Batch.antt =====
-- The loops of the queue: `clear`, `try_enqueue_batch`, `try_dequeue_batch`; and the constructor.
use Prim.Native.Nat.{bit_and}
use mathlib.Core.List.{append_assoc, append-nil}
use native.Mathlib.Decide.{dec_lt}
use nexus_task.Prelude.{
  ℕ, zero, suc, ◌+◌, ◌-◌, ◌%◌, ◌^◌, ◌≤◌, ◌<◌, ◌≡◌, refl, ap, subst, ◌∙◌, sym, arith, ◌⊎◌, true,
  false, Option, none, some, List, [], ◌∷◌, ◌++◌, length, length-append, leb, get_or, set,
  length-set, get_or-set_self, get_or-set_ne, take, drop, add64, sub64, ◌=ℕ◌, word,
}
use nexus_task.Queue.{Queue, init, clear, clear_from, try_enqueue_batch, try_dequeue_batch}
use nexus_task.Queue.Mask.{power_of_bit_and}
use nexus_task.Queue.Cells.{
  Holds, try_enqueue_full, try_enqueue_room, try_dequeue_empty, wrap_cases, around_step,
  get_elem?-end, try_dequeue_oldest, pushed, popped,
}

module _ {ℓ} {A : Type ℓ} where
  -- The constructor accepts the positive capacities that are powers of two, and no other.
  pub init_exact :
      (capacity : ℕ) (q : Queue A)
      → 0 < capacity
      → capacity < word
      → init capacity ≡ some q
      → (k : ℕ) × (capacity ≡ 2 ^ k)
  unfolding init
  init_exact capacity q h w e = power_of_bit_and capacity capacity (omega arith) h (
      ap (bit_and capacity) (let d : capacity - 1 ≡ sub64 capacity 1 = omega arith in d)
      ∙ ground arith)

  module _ (q : Queue A) (small : q.capacity ≤ 2 ^ 63)
      (masked : (x : ℕ) → bit_and x q.mask ≡ x % q.capacity) where
    -- The cells from the `n`-th after `head` on are null.
    abbrev NullFrom : ℕ → ℕ → List (Option A) → Type ℓ
    NullFrom n head b =
        (i : ℕ) → n ≤ i → i < q.capacity → get_or b ((head + i) % q.capacity) none ≡ none

    all_null :
        (head j : ℕ) (b : List (Option A))
        → head < q.capacity
        → j < q.capacity
        → NullFrom 0 head b
        → get_or b j none ≡ none
    all_null head j b hh hj nulls = elim (dec_lt j head) [
      | yes lt ↦ at_distance (j + q.capacity - head) (omega arith) (omega arith)
      | no ge ↦ at_distance (j - head) (omega arith) (omega arith)
    ]
      where
        at_distance :
            (i : ℕ)
            → i < q.capacity
            → (head + i ≡ j) ⊎ (head + i ≡ j + q.capacity)
            → get_or b j none ≡ none
        at_distance i lt where_j =
            subst (λ k. get_or b k none ≡ none)
              (omega (arith, wrap_cases q.capacity (head + i) (omega arith)))
              (nulls i (omega arith) lt)

    step-NullFrom :
        (n head : ℕ) (b : List (Option A))
        → head < q.capacity
        → length b ≡ q.capacity
        → NullFrom (suc n) head b
        → NullFrom n ((head + 1) % q.capacity) (set b head none)
    step-NullFrom n head b hh sized nulls i le lt =
        rw (around_step q.capacity head i) (elim (dec_lt (suc i) q.capacity) [
          | yes inside ↦
              get_or-set_ne b head ((head + suc i) % q.capacity) none none
                (λ e. omega (arith, wrap_cases q.capacity (head + suc i) (omega arith)))
              ∙ nulls (suc i) (omega arith) inside
          | no last ↦ rw (around head i hh lt last) (get_or-set_self b head none none (omega arith))
        ])
      where
        around :
            (head i : ℕ)
            → head < q.capacity
            → i < q.capacity
            → ¬ (suc i < q.capacity)
            → (head + suc i) % q.capacity ≡ head
        around head i hh lt last = omega (arith, wrap_cases q.capacity (head + suc i) (omega arith))

    -- The loop of `clear` ends, with every cell null.
    clear_from_total :
        (fuel n head : ℕ) (b : List (Option A))
        → n < fuel
        → n < q.capacity
        → head < q.capacity
        → q.tail ≡ (head + n) % q.capacity
        → length b ≡ q.capacity
        → NullFrom n head b
        → (out : List (Option A)) × (clear_from fuel head q b ≡ some out)
          × (length out ≡ q.capacity)
          × ((j : ℕ) → j < q.capacity → get_or out j none ≡ none)
    unfolding clear_from
    clear_from_total zero n head b f h hh t sized nulls = absurd (omega arith)
    clear_from_total (suc fuel) zero head b f h hh t sized nulls = (
      b,
      rw (
          let e : (head =ℕ q.tail) ≡ true =
            ground (arith, wrap_cases q.capacity (head + 0) (omega arith)) in
          e),
      sized,
      λ j hj. all_null head j b hh hj nulls,
    )
    clear_from_total (suc fuel) (suc n) head b f h hh t sized nulls =
        let (out, e, sized', nulls') =
          clear_from_total fuel n ((head + 1) % q.capacity) (set b head none) (omega arith)
            (omega arith) (omega arith) (t ∙ sym (around_step q.capacity head n))
            (length-set b head none ∙ sized) (step-NullFrom n head b hh sized nulls) in
        (out, rw (going_on, step, e), sized', nulls')
      where
        going_on : (head =ℕ q.tail) ≡ false
        going_on = ground (arith, wrap_cases q.capacity (head + suc n) (omega arith))

        step : bit_and (add64 head 1) q.mask ≡ (head + 1) % q.capacity
        step = masked (add64 head 1) ∙ ap (λ k. k % q.capacity) (omega arith)

  -- `clear` ends, and leaves the queue empty.
  pub clear_total :
      (q : Queue A) (xs : List A)
      → Holds q xs
      → (q' : Queue A) × (clear q ≡ some q') × Holds q' [] × (q'.capacity ≡ q.capacity)
  unfolding clear
  clear_total q xs v =
      let (out, e, sized, nulls) =
        clear_from_total q v.small v.masked q.capacity (length xs) q.head q.buffer v.room v.room
          v.head_in v.tail_at v.sized (λ i le lt. v.cells i lt ∙ get_elem?-end xs i le) in
      (
        record q { buffer = out; head = 0; tail = 0 },
        rw (e, clear),
        record {
          small = v.small;
          masked = v.masked;
          sized = sized;
          head_in = omega (arith, v.room);
          tail_at = omega (arith, v.room);
          room = omega (arith, v.room);
          cells = λ i lt. nulls ((0 + i) % q.capacity) (omega (arith, v.room));
        },
        refl,
      )

  take-nil : (n : ℕ) → take {A = A} n [] ≡ []
  take-nil zero = refl
  take-nil (suc n) = refl

  enqueue_up_to :
      (tasks : List A) (room : ℕ) (q : Queue A) (xs : List A)
      → q.capacity ≡ room + length xs + 1
      → Holds q xs
      → ((try_enqueue_batch (λ _. false) q tasks).1 ≡ leb (length tasks) room)
        × Holds (try_enqueue_batch (λ _. false) q tasks).0 (xs ++ take room tasks)
  unfolding try_enqueue_batch
  enqueue_up_to [] room q xs c v = (ground arith, rw (take-nil room, append-nil xs) v)
  enqueue_up_to (x ∷ tasks) zero q xs c v =
      rw (try_enqueue_full q xs v false x (omega arith), try_enqueue_batch)
        (ground arith, rw (append-nil xs) v)
  enqueue_up_to (x ∷ tasks) (suc room) q xs c v =
      let (e, w) = try_enqueue_room q xs v x (omega arith) in
      let (es, ws) =
        enqueue_up_to tasks room (pushed q xs v x) (xs ++ x ∷ [])
          (omega (arith, length-append xs (x ∷ []))) w in
      rw (e, try_enqueue_batch)
        (es ∙ ground arith, subst (Holds _) (append_assoc xs (x ∷ []) (take room tasks)) ws)

  -- With no spurious failure, a batch puts in the tasks that there is room for, in their order, and
  -- says whether that is all of them.
  pub try_enqueue_batch_lem :
      (tasks : List A) (q : Queue A) (xs : List A)
      → Holds q xs
      → let room = q.capacity - 1 - length xs in
        ((try_enqueue_batch (λ _. false) q tasks).1 ≡ leb (length tasks) room)
        × Holds (try_enqueue_batch (λ _. false) q tasks).0 (xs ++ take room tasks)
  try_enqueue_batch_lem tasks q xs v =
      enqueue_up_to tasks (q.capacity - 1 - length xs) q xs (omega (arith, v.room)) v

  -- With no spurious failure, a batch takes the oldest tasks, as many as there are and `out` has
  -- room for, and leaves the others.
  pub try_dequeue_batch_lem :
      (room : ℕ) (q : Queue A) (xs : List A)
      → Holds q xs
      → ((try_dequeue_batch (λ _. false) q room).1 ≡ take room xs)
        × Holds (try_dequeue_batch (λ _. false) q room).0 (drop room xs)
  unfolding try_dequeue_batch
  try_dequeue_batch_lem zero q xs v = (refl, v)
  try_dequeue_batch_lem (suc room) q [] v =
      let e = try_dequeue_empty false q v in rw (e, try_dequeue_batch) (refl, rw e v)
  try_dequeue_batch_lem (suc room) q (x ∷ xs) v =
      let (e, w) = try_dequeue_oldest q x xs v in
      let (es, ws) = try_dequeue_batch_lem room (popped q) xs w in
      rw (e, try_dequeue_batch) (rw e (ap (λ r. x ∷ r) es, ws))
