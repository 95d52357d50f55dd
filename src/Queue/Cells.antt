-- ===== src/Queue/Cells.antt =====
-- What a queue holds, and what each call of task_queue.hpp does to it.
use Prim.Native.Nat.{bit_and}
use native.Mathlib.Nat.{mod-add-mod, mod-eq_of_lt, mod-eq-sub-mod, pow-le-pow_right}
use native.Mathlib.Decide.{dec_lt, ℕ_discrete}
use nexus_task.Prelude.{
  ℕ, zero, suc, ◌+◌, ◌-◌, ◌%◌, ◌^◌, ◌≤◌, ◌<◌, ◌≡◌, refl, ap, ◌∙◌, sym, ◌≢◌, arith, ◌⊎◌, inl, inr,
  Bool, true, false, none, some, List, [], ◌∷◌, ◌++◌, length, get_elem?, set, length-set,
  length-append, get_or-set_self, get_or-set_ne, get_or-replicate, length-replicate, replicate,
  add64, sub64, ◌=ℕ◌, =ℕ_iff,
}
use nexus_task.Queue.{Queue, init, slot, try_enqueue, try_dequeue, size, is_empty, is_full}
use nexus_task.Queue.Mask.{pow-pos, bit_and-mask, bit_and_power}

-- `q` is well formed and holds `xs`, oldest first: the cells from `head` on, round the buffer, are
-- the tasks of `xs` and then null.
pub record Holds {ℓ} {A : Type ℓ} (q : Queue A) (xs : List A) : Type ℓ where
  pub small : q.capacity ≤ 2 ^ 63
  pub masked : (x : ℕ) → bit_and x q.mask ≡ x % q.capacity
  pub sized : length q.buffer ≡ q.capacity
  pub head_in : q.head < q.capacity
  pub tail_at : q.tail ≡ (q.head + length xs) % q.capacity
  pub room : length xs < q.capacity
  pub cells : (i : ℕ) → i < q.capacity → slot q ((q.head + i) % q.capacity) ≡ get_elem? xs i

-- An index less than two rounds from the start of the buffer.
pub wrap_cases : (n x : ℕ) → x < n + n → ((x < n) × (x % n ≡ x)) ⊎ ((n ≤ x) × (x % n ≡ x - n))
wrap_cases n x h = elim (dec_lt x n) [
  | yes p ↦ inl (p, mod-eq_of_lt p)
  | no p ↦
      inr (omega arith, mod-eq-sub-mod {n = x} {m = n} (omega arith) ∙ mod-eq_of_lt (omega arith))
]

-- Fewer than `n` steps round the buffer do not meet.
around-ne : (n h i j : ℕ) → h < n → i < n → j < n → i ≢ j → (h + i) % n ≢ (h + j) % n
around-ne n h i j hh hi hj ne =
    omega (arith, wrap_cases n (h + i) (omega arith), wrap_cases n (h + j) (omega arith))

pub around_step : (n h i : ℕ) → ((h + 1) % n + i) % n ≡ (h + suc i) % n
around_step n h i = mod-add-mod (h + 1) n i ∙ ap (λ k. k % n) (omega arith)

mask_word : (k : ℕ) → k ≤ 63 → (2 ^ k ≤ 2 ^ 63) × (sub64 (2 ^ k) 1 ≡ 2 ^ k - 1)
mask_word k h =
    let le = pow-le-pow_right {n = 2} (omega arith) h in (le, omega (arith, pow-pos k, le))

module _ {ℓ} {A : Type ℓ} where
  pub get_elem?-end : (xs : List A) (i : ℕ) → length xs ≤ i → get_elem? xs i ≡ none
  get_elem?-end [] i h = refl
  get_elem?-end (x ∷ xs) zero h = absurd (omega arith)
  get_elem?-end (x ∷ xs) (suc i) h = get_elem?-end xs i (omega arith)

  get_elem?-snoc : (xs : List A) (x : A) → get_elem? (xs ++ x ∷ []) (length xs) ≡ some x
  get_elem?-snoc [] x = refl
  get_elem?-snoc (y ∷ xs) x = get_elem?-snoc xs x

  get_elem?-snoc_ne :
      (xs : List A) (x : A) (i : ℕ) → i ≢ length xs → get_elem? (xs ++ x ∷ []) i ≡ get_elem? xs i
  get_elem?-snoc_ne [] x zero h = absurd (h refl)
  get_elem?-snoc_ne [] x (suc i) h = refl
  get_elem?-snoc_ne (y ∷ xs) x zero h = refl
  get_elem?-snoc_ne (y ∷ xs) x (suc i) h = get_elem?-snoc_ne xs x i (λ e. h (ap suc e))

  -- A new queue of `2 ^ k` cells.
  abbrev pub fresh : ℕ → Queue A
  fresh k = record {
    capacity = 2 ^ k;
    mask = 2 ^ k - 1;
    buffer = replicate (2 ^ k) none;
    head = 0;
    tail = 0;
  }

  -- The constructor accepts a power of two.
  pub init_power : (k : ℕ) → k ≤ 63 → init (2 ^ k) ≡ some (fresh k)
  unfolding init
  init_power k h = rw (((mask_word k h).1), bit_and_power k)

  pub fresh-Holds : (k : ℕ) → k ≤ 63 → Holds (fresh k) []
  fresh-Holds k h = record {
    small = (mask_word k h).0;
    masked = bit_and-mask k;
    sized = length-replicate (2 ^ k) none;
    head_in = pow-pos k;
    tail_at = omega (arith, pow-pos k);
    room = pow-pos k;
    cells = λ i lt. get_or-replicate (2 ^ k) ((0 + i) % 2 ^ k) none;
  }

  module _ (q : Queue A) (xs : List A) (v : Holds q xs) where
    -- Where the tail stands, and what the next positions are.
    tail_cases :
        ((q.head + length xs < q.capacity) × (q.tail ≡ q.head + length xs))
        ⊎ ((q.capacity ≤ q.head + length xs) × (q.tail ≡ q.head + length xs - q.capacity))
    tail_cases = omega (arith, v.tail_at, wrap_cases q.capacity (q.head + length xs) (omega arith))

    pub tail_in : q.tail < q.capacity
    tail_in = omega (arith, tail_cases)

    -- The successor of a position.
    pub next : (i : ℕ) → i < q.capacity → bit_and (add64 i 1) q.mask ≡ (i + 1) % q.capacity
    next i h = v.masked (add64 i 1) ∙ ap (λ k. k % q.capacity) (omega (arith, v.small))

    pub head_masked : bit_and q.head q.mask ≡ q.head
    head_masked = v.masked q.head ∙ mod-eq_of_lt v.head_in

    at_head : (i : ℕ) → i < q.capacity → (q.head + i) % q.capacity < q.capacity
    at_head i h = omega arith

    pub is_empty-Holds : is_empty q ≡ (length xs =ℕ 0)
    unfolding is_empty
    is_empty-Holds = ground (arith, tail_cases)

    -- The test for a full queue: one cell always stays free.
    full_test : ((q.tail + 1) % q.capacity =ℕ q.head) ≡ (length xs + 1 =ℕ q.capacity)
    full_test =
        ground (arith, tail_cases, wrap_cases q.capacity (q.tail + 1) (omega (arith, tail_in)))

    pub is_full-Holds : is_full q ≡ (length xs + 1 =ℕ q.capacity)
    unfolding is_full
    is_full-Holds = rw (next q.tail tail_in, head_masked) full_test

    -- `size` is the number of tasks that the buffer holds.
    pub size-Holds : size q ≡ length xs
    unfolding size
    size-Holds = ground (arith, tail_cases)

    tail_null : slot q q.tail ≡ none
    tail_null =
        rw v.tail_at (v.cells (length xs) v.room ∙ get_elem?-end xs (length xs) (omega arith))

    abbrev pub pushed : A → Queue A
    pushed x = record q { buffer = set q.buffer q.tail (some x); tail = (q.tail + 1) % q.capacity }

    pushed_cells :
        (x : A) (i : ℕ)
        → i < q.capacity
        → slot (pushed x) ((q.head + i) % q.capacity) ≡ get_elem? (xs ++ x ∷ []) i
    pushed_cells x i h = elim (ℕ_discrete i (length xs)) [
      | yes e ↦
          rw (e, ← v.tail_at)
            (get_or-set_self q.buffer q.tail (some x) none (omega (arith, tail_in, v.sized))
              ∙ sym (get_elem?-snoc xs x))
      | no ne ↦
          get_or-set_ne q.buffer q.tail ((q.head + i) % q.capacity) (some x) none (λ e.
            around-ne q.capacity q.head (length xs) i v.head_in v.room h (λ k. ne (sym k))
              (sym v.tail_at ∙ e))
          ∙ v.cells i h
          ∙ sym (get_elem?-snoc_ne xs x i ne)
    ]

    pub pushed-Holds : (x : A) → length xs + 1 < q.capacity → Holds (pushed x) (xs ++ x ∷ [])
    pushed-Holds x h = record {
      small = v.small;
      masked = v.masked;
      sized = length-set q.buffer q.tail (some x) ∙ v.sized;
      head_in = v.head_in;
      tail_at =
          rw (length-append xs (x ∷ []), v.tail_at)
            (mod-add-mod (q.head + length xs) q.capacity 1
              ∙ ap (λ k. k % q.capacity) (omega arith));
      room = omega (arith, length-append xs (x ∷ []));
      cells = pushed_cells x;
    }

    -- On a full queue `try_enqueue` fails and changes nothing.
    pub try_enqueue_full :
        (spurious : Bool) (x : A)
        → length xs + 1 ≡ q.capacity
        → try_enqueue spurious q x ≡ (q, false)
    unfolding try_enqueue
    try_enqueue_full spurious x full =
        rw (next q.tail tail_in, head_masked, full_test, (=ℕ_iff (length xs + 1) q.capacity).1 full)

    -- With room `try_enqueue` succeeds, and the task is the last one.
    pub try_enqueue_room :
        (x : A)
        → length xs + 1 < q.capacity
        → (try_enqueue false q x ≡ (pushed x, true)) × Holds (pushed x) (xs ++ x ∷ [])
    unfolding try_enqueue
    try_enqueue_room x h =
        (rw (next q.tail tail_in, head_masked, full_test, different, tail_null), pushed-Holds x h)
      where
        different : (length xs + 1 =ℕ q.capacity) ≡ false
        different = ground arith

  -- A spurious failure changes nothing.
  pub try_enqueue_spurious : (q : Queue A) (x : A) → try_enqueue true q x ≡ (q, false)
  unfolding try_enqueue
  try_enqueue_spurious q x = ground arith

  abbrev pub popped : Queue A → Queue A
  popped q = record q { buffer = set q.buffer q.head none; head = (q.head + 1) % q.capacity }

  module _ (q : Queue A) (x : A) (xs : List A) (v : Holds q (x ∷ xs)) where
    pub round_trip :
        (i : ℕ) → i < q.capacity → ¬ (suc i < q.capacity) → (q.head + suc i) % q.capacity ≡ q.head
    round_trip i h last =
        omega (arith, v.head_in, wrap_cases q.capacity (q.head + suc i) (omega (arith, v.head_in)))

    popped_cells :
        (i : ℕ)
        → i < q.capacity
        → slot (popped q) (((q.head + 1) % q.capacity + i) % q.capacity) ≡ get_elem? xs i
    popped_cells i h = rw (around_step q.capacity q.head i) (elim (dec_lt (suc i) q.capacity) [
      | yes lt ↦
          get_or-set_ne q.buffer q.head ((q.head + suc i) % q.capacity) none none
            (λ e. omega (arith, wrap_cases q.capacity (q.head + suc i) (omega (arith, v.head_in))))
          ∙ v.cells (suc i) lt
      | no last ↦ rw (round_trip i h last) (
          get_or-set_self q.buffer q.head none none (omega (arith, v.sized, v.head_in))
          ∙ sym (get_elem?-end xs i (omega (arith, v.room))))
    ])

    pub popped-Holds : Holds (popped q) xs
    popped-Holds = record {
      small = v.small;
      masked = v.masked;
      sized = length-set q.buffer q.head none ∙ v.sized;
      head_in = omega (arith, v.head_in);
      tail_at = v.tail_at ∙ sym (around_step q.capacity q.head (length xs));
      room = omega (arith, v.room);
      cells = popped_cells;
    }

    -- On a queue with a task `try_dequeue` takes the oldest one.
    pub try_dequeue_oldest : (try_dequeue false q ≡ (popped q, some x)) × Holds (popped q) xs
    unfolding try_dequeue
    try_dequeue_oldest = (
      rw (
        head_masked q (x ∷ xs) v,
        different,
        first,
        head_masked q (x ∷ xs) v,
        next q (x ∷ xs) v q.head v.head_in,
      ),
      popped-Holds,
    )
      where
        different : (q.head =ℕ q.tail) ≡ false
        different = ground (arith, tail_cases q (x ∷ xs) v)

        first : slot q q.head ≡ some x
        first =
            ap (slot q) (
              let e : q.head ≡ (q.head + 0) % q.capacity =
                omega (arith, wrap_cases q.capacity (q.head + 0) (omega (arith, v.head_in))) in
              e)
            ∙ v.cells 0 (omega (arith, v.head_in))

  pub try_dequeue_empty :
      (spurious : Bool) (q : Queue A) → Holds q [] → try_dequeue spurious q ≡ (q, none)
  unfolding try_dequeue
  try_dequeue_empty spurious q v = ground (arith, tail_cases q [] v)

  pub try_dequeue_spurious : (q : Queue A) → try_dequeue true q ≡ (q, none)
  unfolding try_dequeue
  try_dequeue_spurious q = ground arith
