-- ===== src/Queue/Race/Single/Consumer.antt =====
-- The steps of the one consumer take off the first task.
use Prim.Native.Nat.{bit_and}
use native.Mathlib.Nat.{mod-eq_of_lt, mod-add-mod}
use nexus_task.Prelude.{
  ℕ, ◌+◌, ◌%◌, ◌≡◌, refl, sym, ap, ◌∙◌, arith, Bool, none, some, List, [], ◌∷◌, ◌++◌, ◌=ℕ◌,
  Bool-cases, Option-cases, inl, inr, add64, get_elem?, set,
}
use nexus_task.Queue.{Queue, slot}
use nexus_task.Queue.Cells.{Holds, next, head_masked, popped, popped-Holds}
use nexus_task.Queue.Race.{
  Pc, idle, loads_head, loads_tail, exchanges, stores_tail, enqueued, reads_head, reads_tail,
  reads_slot, claims, stores_head, dequeued, access, cas_task, takes,
}
use nexus_task.Queue.Race.Single.{due_head, lag, settled, Starts, Producing, Consuming, Inv}

-- The consumer moves on, and nothing else changes.
pub moves_consumer :
    (q : Queue ℕ) (p c c' : Pc) (xs : List ℕ)
    → Inv q p c xs
    → due_head c' q.head ≡ due_head c q.head
    → lag c' ≡ lag c
    → Consuming (settled q p c') xs c'
    → Inv q p c' xs
moves_consumer q p c c' xs v same lags here = record {
  holds = rw same v.holds;
  head_at = rw (same, lags) v.head_at;
  head_in = v.head_in;
  lagging = rw lags v.lagging;
  producing = rw (same, lags) v.producing;
  consuming = here;
}

-- A step of the consumer, which takes off what it takes.
abbrev pub Takes : List ℕ → List ℕ → Queue ℕ → Pc → Pc → Type 0
Takes got xs q p c = (ys : List ℕ) × (xs ≡ got ++ ys) × Inv q p c ys

first_of : (xs : List ℕ) (task : ℕ) → get_elem? xs 0 ≡ some task → Starts task xs
first_of [] task h = cc
first_of (x ∷ xs) task h = cc

-- A task taken off the front is one task more behind the head that the producer read.
Producing-pop :
    (s s' : Queue ℕ) (x : ℕ) (xs : List ℕ) (p : Pc)
    → s'.capacity ≡ s.capacity
    → s'.tail ≡ s.tail
    → s'.head ≡ (s.head + 1) % s.capacity
    → Producing s (x ∷ xs) 0 p
    → Producing s' xs 1 p
Producing-pop s s' x xs idle c t h v = tt
Producing-pop s s' x xs (loads_head task) c t h v = tt
Producing-pop s s' x xs (loads_tail task head) c t h (d, inside, reaches, lags, fits) =
    rw (c, h)
      (
        d + 1,
        inside,
        ap (λ n. n % s.capacity) (omega arith)
            ∙ sym (mod-add-mod (head + d) s.capacity 1)
            ∙ ap (λ n. (n + 1) % s.capacity) reaches,
        omega arith,
        omega (arith, fits),
      )
Producing-pop s s' x xs (exchanges task tail next_tail) c t h (at, after, room) =
    rw (c, t) (at, after, omega (arith, room))
Producing-pop s s' x xs (stores_tail next_tail) c t h v = tt
Producing-pop s s' x xs (enqueued done) c t h v = tt
Producing-pop s s' x xs _ c t h v = absurd v

-- The store of the head leaves nothing lagging.
Producing-stored : (s : Queue ℕ) (xs : List ℕ) (p : Pc) → Producing s xs 1 p → Producing s xs 0 p
Producing-stored s xs idle v = tt
Producing-stored s xs (loads_head task) v = tt
Producing-stored s xs (loads_tail task head) (d, inside, reaches, lags, fits) =
    (d, inside, reaches, omega arith, fits)
Producing-stored s xs (exchanges task tail next_tail) (at, after, room) =
    (at, after, omega (arith, room))
Producing-stored s xs (stores_tail next_tail) v = tt
Producing-stored s xs (enqueued done) v = tt
Producing-stored s xs _ v = absurd v

slot_first : (s : Queue ℕ) (xs : List ℕ) → Holds s xs → slot s s.head ≡ get_elem? xs 0
slot_first s xs v =
    ap (slot s) (sym (mod-eq_of_lt v.head_in) ∙ ap (λ n. n % s.capacity) (omega arith))
    ∙ v.cells 0 (omega (arith, v.head_in))

-- The exchange at the head takes the first task.
claims-Takes :
    (q : Queue ℕ) (p : Pc) (head task : ℕ) (xs : List ℕ)
    → Inv q p (claims head task) xs
    → Takes
        (task ∷ [])
        xs
        (record q { buffer = set q.buffer (bit_and head q.mask) none })
        p
        (stores_head (bit_and (add64 head 1) q.mask) task)
claims-Takes q p head task [] v = absurd v.consuming.1
claims-Takes q p head task (x ∷ xs) v =
    let s = settled q p (claims head task) in
    let (here, first) = v.consuming in
    let at : bit_and q.head q.mask ≡ q.head = head_masked s (x ∷ xs) v.holds in
    let after : bit_and (add64 q.head 1) q.mask ≡ (q.head + 1) % q.capacity =
      next s (x ∷ xs) v.holds q.head v.head_in in
    (
      xs,
      rw first refl,
      rw (here, at, after)
          (record {
            holds = popped-Holds s x xs v.holds;
            head_at = refl;
            head_in = v.head_in;
            lagging = omega (arith, v.lagging);
            producing = Producing-pop s (popped s) x xs p refl refl refl v.producing;
            consuming = tt;
          }),
    )

pub consumer-Takes :
    (spurious : Bool) (q : Queue ℕ) (p c : Pc) (xs : List ℕ)
    → Inv q p c xs
    → Takes (takes spurious q c) xs (access spurious q c).0 p (access spurious q c).1
unfolding access
consumer-Takes spurious q p idle xs v = (xs, refl, v)
consumer-Takes spurious q p (dequeued task) xs v = (xs, refl, v)
consumer-Takes spurious q p reads_head xs v =
    (xs, refl, moves_consumer q p reads_head (reads_tail q.head) xs v refl refl refl)
consumer-Takes spurious q p (reads_tail head) xs v = elim (Bool-cases (head =ℕ q.tail)) [
  | inl e ↦ rw e (xs, refl, moves_consumer q p (reads_tail head) (dequeued none) xs v refl refl tt)
  | inr e ↦
      rw e (
        xs,
        refl,
        moves_consumer q p (reads_tail head) (reads_slot head) xs v refl refl v.consuming,
      )
]
consumer-Takes spurious q p (reads_slot head) xs v =
    let s = settled q p (reads_slot head) in
    let at : slot q (bit_and head q.mask) ≡ get_elem? xs 0 =
      ap (slot q) (ap (λ h. bit_and h q.mask) v.consuming ∙ head_masked s xs v.holds)
      ∙ slot_first s xs v.holds in
    elim (Option-cases (slot q (bit_and head q.mask))) [
      | inl e ↦
          rw e (xs, refl, moves_consumer q p (reads_slot head) (dequeued none) xs v refl refl tt)
      | inr (task, e) ↦ rw e (
        xs,
        refl,
        moves_consumer q p (reads_slot head) (claims head task) xs v refl refl
            (v.consuming, first_of xs task (sym at ∙ e)),
      )
    ]
consumer-Takes spurious q p (claims head task) xs v =
    elim (Bool-cases (cas_task spurious task (slot q (bit_and head q.mask)))) [
      | inr e ↦
          rw e (xs, refl, moves_consumer q p (claims head task) (dequeued none) xs v refl refl tt)
      | inl e ↦ rw e (claims-Takes q p head task xs v)
    ]
consumer-Takes spurious q p (stores_head next_head task) xs v = (
  xs,
  refl,
  record {
    holds = v.holds;
    head_at = ap (λ n. n % q.capacity) (omega arith) ∙ mod-eq_of_lt v.holds.head_in;
    head_in = v.holds.head_in;
    lagging = omega (arith, v.lagging);
    producing = Producing-stored (settled q p (stores_head next_head task)) xs p v.producing;
    consuming = tt;
  },
)
consumer-Takes spurious q p _ xs v = absurd v.consuming
