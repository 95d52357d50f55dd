-- ===== src/Queue/Race/Single/Producer.antt =====
-- The steps of the one producer keep the order of the tasks.
use Prim.Native.Nat.{bit_and}
use native.Mathlib.Nat.{mod-eq_of_lt}
use native.Mathlib.Decide.{dec_lt}
use mathlib.Core.List.{append-nil}
use nexus_task.Prelude.{
  ℕ, ◌+◌, ◌%◌, ◌<◌, ◌≡◌, refl, sym, ap₂, ◌∙◌, arith, Bool, false, some, List, [], ◌∷◌, ◌++◌, ◌=ℕ◌,
  Bool-cases, inl, inr, add64, length, set, =ℕ_iff, length-append,
}
use nexus_task.Queue.{Queue, slot, cas_null}
use nexus_task.Queue.Cells.{tail_in, next, pushed-Holds, wrap_cases}
use nexus_task.Queue.Race.{
  Pc, idle, loads_head, loads_tail, exchanges, stores_tail, enqueued, reads_head, reads_tail,
  reads_slot, claims, stores_head, dequeued, access, puts,
}
use nexus_task.Queue.Race.Single.{due_tail, lag, settled, Starts, Producing, Consuming, Inv}

-- The test for a full queue, with a head `h` that was read before the head came to `g`.
room_left :
    (d m h g t n : ℕ)
    → h < n
    → g < n
    → (h + d) % n ≡ g
    → d + m < n
    → t ≡ (g + m) % n
    → ((t + 1) % n =ℕ h) ≡ false
    → d + m + 1 < n
room_left d m h g t n hin gin hd fits ht test = elim (dec_lt (d + m + 1) n) [
  | yes lt ↦ lt
  | no full ↦
      let same : (t + 1) % n ≡ h = omega (
        arith,
        wrap_cases n (h + d) (omega (arith, hin, fits)),
        wrap_cases n (g + m) (omega (arith, gin, fits)),
        wrap_cases n (t + 1) (omega (arith, ht, gin, fits)),
        hd,
        ht,
        full,
        fits,
      ) in
      absurd (ground (arith, (=ℕ_iff ((t + 1) % n) h).1 same, test))
]

Inv-nil : (q : Queue ℕ) (p c : Pc) (xs : List ℕ) → Inv q p c xs → Inv q p c (xs ++ [])
Inv-nil q p c xs v = rw append-nil v

-- The producer moves on, and nothing else changes.
pub moves_producer :
    (q : Queue ℕ) (p p' c : Pc) (xs : List ℕ)
    → Inv q p c xs
    → due_tail p' q.tail ≡ due_tail p q.tail
    → Producing (settled q p' c) xs (lag c) p'
    → Consuming (settled q p' c) xs c
    → Inv q p' c (xs ++ [])
moves_producer q p p' c xs v same here there = rw append-nil (record {
  holds = rw same v.holds;
  head_at = v.head_at;
  head_in = v.head_in;
  lagging = v.lagging;
  producing = here;
  consuming = there;
})

Starts-push : (task x : ℕ) (xs : List ℕ) → Starts task xs → Starts task (xs ++ x ∷ [])
Starts-push task x [] h = absurd h
Starts-push task x (y ∷ xs) h = h

-- A task put in at the end is nothing to the consumer.
Consuming-push :
    (s s' : Queue ℕ) (xs : List ℕ) (task : ℕ) (c : Pc)
    → s'.head ≡ s.head
    → Consuming s xs c
    → Consuming s' (xs ++ task ∷ []) c
Consuming-push s s' xs task (reads_tail head) e h = h ∙ sym e
Consuming-push s s' xs task (reads_slot head) e h = h ∙ sym e
Consuming-push s s' xs task (claims head t) e h = (h.0 ∙ sym e, Starts-push t task xs h.1)
Consuming-push s s' xs task idle e h = tt
Consuming-push s s' xs task reads_head e h = tt
Consuming-push s s' xs task (stores_head next_head t) e h = tt
Consuming-push s s' xs task (dequeued t) e h = tt
Consuming-push s s' xs task _ e h = absurd h

-- A step of the producer.
pub producer-Inv :
    (spurious : Bool) (q : Queue ℕ) (p c : Pc) (xs : List ℕ)
    → Inv q p c xs
    → Inv (access spurious q p).0 (access spurious q p).1 c (xs ++ puts spurious q p)
unfolding access
producer-Inv spurious q idle c xs v = rw append-nil v
producer-Inv spurious q (enqueued done) c xs v = rw append-nil v
producer-Inv spurious q (loads_head task) c xs v =
    moves_producer q (loads_head task) (loads_tail task q.head) c xs v refl
      (lag c, v.head_in, v.head_at, omega arith, v.lagging) v.consuming
producer-Inv spurious q (loads_tail task head) c xs v =
    let s = settled q (loads_tail task head) c in
    let next_tail = bit_and (add64 q.tail 1) q.mask in
    let (d, in_buffer, reaches, lags, fits) = v.producing in
    let at : next_tail ≡ (q.tail + 1) % q.capacity =
      next s xs v.holds q.tail (tail_in s xs v.holds) in
    let masked : bit_and head q.mask ≡ head = v.holds.masked head ∙ mod-eq_of_lt in_buffer in
    elim (Bool-cases (next_tail =ℕ bit_and head q.mask)) [
      | inl full ↦
          rw full
            (moves_producer q (loads_tail task head) (enqueued false) c xs v refl tt v.consuming)
      | inr free ↦
          let test : ((q.tail + 1) % q.capacity =ℕ head) ≡ false =
            ap₂ (λ a b. a =ℕ b) (sym at) (sym masked) ∙ free in
          let room =
            room_left d (length xs) head s.head q.tail q.capacity in_buffer v.holds.head_in reaches
              fits v.holds.tail_at test in
          rw free (
            moves_producer q (loads_tail task head) (exchanges task q.tail next_tail) c xs v refl
              (refl, at, omega (arith, room, lags)) v.consuming)
    ]
producer-Inv spurious q (exchanges task tail next_tail) c xs v =
    let s = settled q (exchanges task tail next_tail) c in
    let (here, at, room) = v.producing in
    elim (Bool-cases (cas_null spurious (slot q tail))) [
      | inr e ↦ rw e (
          moves_producer q (exchanges task tail next_tail) (enqueued false) c xs v refl tt
            v.consuming)
      | inl e ↦ rw e (record {
        holds = rw (here, at) (pushed-Holds s xs v.holds task (omega (arith, room)));
        head_at = v.head_at;
        head_in = v.head_in;
        lagging = omega (arith, length-append {0} xs (task ∷ []), room);
        producing = tt;
        consuming =
            Consuming-push s
              (settled (record q { buffer = set q.buffer tail (some task) }) (stores_tail next_tail)
                c)
              xs task c refl v.consuming;
      })
    ]
producer-Inv spurious q (stores_tail next_tail) c xs v = rw append-nil (record {
  holds = v.holds;
  head_at = v.head_at;
  head_in = v.head_in;
  lagging = v.lagging;
  producing = tt;
  consuming = v.consuming;
})
producer-Inv spurious q _ c xs v = absurd v.producing
