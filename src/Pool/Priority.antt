-- ===== src/Pool/Priority.antt =====
-- PriorityQueueSet: the task that comes out is the oldest of the highest priority.
use mathlib.Core.List.{head?, tail}
use nexus_task.Prelude.{
  ℕ, ◌+◌, ◌-◌, ◌^◌, ◌≤◌, ◌≡◌, refl, ◌∙◌, false, Option, some, List, [], ◌∷◌, ◌++◌, inl, inr,
  if◌then◌else◌, ltb, arith, length, Bool-cases,
}
use nexus_task.Task.{TaskPriority, low, normal, high, critical}
use nexus_task.Queue.{Queue, try_dequeue, try_enqueue}
use nexus_task.Queue.Cells.{Holds, init_power, fresh, fresh-Holds}
use nexus_task.Queue.Fifo.{push, pop, try_enqueue_refines, try_dequeue_refines}
use nexus_task.Pool.{
  QueueSet, create_set, enqueue_in, dequeue_low, dequeue_normal, dequeue_high, dequeue_highest,
}

-- What the four queues hold, oldest first.
pub record Held : Type 0 where
  pub lows : List ℕ
  pub normals : List ℕ
  pub highs : List ℕ
  pub criticals : List ℕ

-- The tasks in the order in which they will come out.
abbrev pub in_order : Held → List ℕ
in_order h = h.criticals ++ (h.highs ++ (h.normals ++ h.lows))

abbrev pub at : TaskPriority → Held → List ℕ
at low h = h.lows
at normal h = h.normals
at high h = h.highs
at critical h = h.criticals

abbrev pub store : TaskPriority → List ℕ → Held → Held
store low xs h = record h { lows = xs }
store normal xs h = record h { normals = xs }
store high xs h = record h { highs = xs }
store critical xs h = record h { criticals = xs }

-- Queues with room for `limit` tasks each.
pub record SetHolds (limit : ℕ) (s : QueueSet) (h : Held) : Type 0 where
  pub low_held : Holds s.lows h.lows
  pub normal_held : Holds s.normals h.normals
  pub high_held : Holds s.highs h.highs
  pub critical_held : Holds s.criticals h.criticals
  pub low_cap : s.lows.capacity ≡ limit + 1
  pub normal_cap : s.normals.capacity ≡ limit + 1
  pub high_cap : s.highs.capacity ≡ limit + 1
  pub critical_cap : s.criticals.capacity ≡ limit + 1

abbrev pub no_tasks : Held
no_tasks = record { lows = []; normals = []; highs = []; criticals = [] }

abbrev pub fresh_set : ℕ → QueueSet
fresh_set k = record { lows = fresh k; normals = fresh k; highs = fresh k; criticals = fresh k }

pub create_set_power :
    (k : ℕ)
    → k ≤ 63
    → (create_set (2 ^ k) ≡ some (fresh_set k)) × SetHolds (2 ^ k - 1) (fresh_set k) no_tasks
unfolding create_set
create_set_power k h =
    let v = fresh-Holds {A = ℕ} k h in
    let c : 2 ^ k ≡ 2 ^ k - 1 + 1 = omega (arith, v.head_in) in
    (
      rw (init_power {A = ℕ} k h, create_set) refl,
      record {
        low_held = v;
        normal_held = v;
        high_held = v;
        critical_held = v;
        low_cap = c;
        normal_cap = c;
        high_cap = c;
        critical_cap = c;
      },
    )

abbrev replace : TaskPriority → Queue ℕ → QueueSet → QueueSet
replace low q s = record s { lows = q }
replace normal q s = record s { normals = q }
replace high q s = record s { highs = q }
replace critical q s = record s { criticals = q }

-- A queue of the set, and what it holds, are replaced.
with_queue :
    (limit : ℕ) (s : QueueSet) (h : Held) (q : Queue ℕ) (xs : List ℕ) (p : TaskPriority)
    → SetHolds limit s h
    → Holds q xs
    → q.capacity ≡ limit + 1
    → SetHolds limit (replace p q s) (store p xs h)
with_queue limit s h q xs low v w c = record {
  low_held = w;
  normal_held = v.normal_held;
  high_held = v.high_held;
  critical_held = v.critical_held;
  low_cap = c;
  normal_cap = v.normal_cap;
  high_cap = v.high_cap;
  critical_cap = v.critical_cap;
}
with_queue limit s h q xs normal v w c = record {
  low_held = v.low_held;
  normal_held = w;
  high_held = v.high_held;
  critical_held = v.critical_held;
  low_cap = v.low_cap;
  normal_cap = c;
  high_cap = v.high_cap;
  critical_cap = v.critical_cap;
}
with_queue limit s h q xs high v w c = record {
  low_held = v.low_held;
  normal_held = v.normal_held;
  high_held = w;
  critical_held = v.critical_held;
  low_cap = v.low_cap;
  normal_cap = v.normal_cap;
  high_cap = c;
  critical_cap = v.critical_cap;
}
with_queue limit s h q xs critical v w c = record {
  low_held = v.low_held;
  normal_held = v.normal_held;
  high_held = v.high_held;
  critical_held = w;
  low_cap = v.low_cap;
  normal_cap = v.normal_cap;
  high_cap = v.high_cap;
  critical_cap = c;
}

enqueue_if :
    (limit : ℕ) (q : Queue ℕ) (xs : List ℕ) (t : ℕ)
    → q.capacity ≡ limit + 1
    → Holds q xs
    → ((try_enqueue false q t).1 ≡ ltb (length xs) limit)
      × Holds (try_enqueue false q t).0 (if ltb (length xs) limit then xs ++ t ∷ [] else xs)
      × ((try_enqueue false q t).0.capacity ≡ limit + 1)
unfolding push
enqueue_if limit q xs t c v =
    let (e, w, c') = try_enqueue_refines limit false q xs t c v in
    elim (Bool-cases (ltb (length xs) limit)) [
      | inl b ↦ (e ∙ rw b, rw b (rw b at w), c')
      | inr b ↦ (e ∙ rw b, rw b (rw b at w), c')
    ]

-- A task goes to the end of the queue of its priority if that queue has room, and else nothing
-- changes and the answer is false.
pub enqueue_in_lem :
    (limit : ℕ) (s : QueueSet) (h : Held) (t : ℕ) (p : TaskPriority)
    → SetHolds limit s h
    → ((enqueue_in s t p).1 ≡ ltb (length (at p h)) limit)
      × SetHolds limit
          (enqueue_in s t p).0
          (store p (if ltb (length (at p h)) limit then at p h ++ t ∷ [] else at p h) h)
unfolding enqueue_in
enqueue_in_lem limit s h t low v =
    let (e, w, c) = enqueue_if limit s.lows h.lows t v.low_cap v.low_held in
    (e, with_queue limit s h _ _ low v w c)
enqueue_in_lem limit s h t normal v =
    let (e, w, c) = enqueue_if limit s.normals h.normals t v.normal_cap v.normal_held in
    (e, with_queue limit s h _ _ normal v w c)
enqueue_in_lem limit s h t high v =
    let (e, w, c) = enqueue_if limit s.highs h.highs t v.high_cap v.high_held in
    (e, with_queue limit s h _ _ high v w c)
enqueue_in_lem limit s h t critical v =
    let (e, w, c) = enqueue_if limit s.criticals h.criticals t v.critical_cap v.critical_held in
    (e, with_queue limit s h _ _ critical v w c)

dequeue_if :
    (limit : ℕ) (q : Queue ℕ) (xs : List ℕ)
    → q.capacity ≡ limit + 1
    → Holds q xs
    → ((try_dequeue false q).1 ≡ head? xs)
      × Holds (try_dequeue false q).0 (tail xs)
      × ((try_dequeue false q).0.capacity ≡ limit + 1)
unfolding pop
dequeue_if limit q [] c v = try_dequeue_refines limit false q [] c v
dequeue_if limit q (x ∷ xs) c v = try_dequeue_refines limit false q (x ∷ xs) c v

-- What a search finds: the first task in order, if there is one; the others stay.
abbrev pub Finds : ℕ → Held → QueueSet × Option ℕ → Type 0
Finds limit h r =
    (h' : Held) × SetHolds limit r.0 h'
    × (r.1 ≡ head? (in_order h))
    × (in_order h' ≡ tail (in_order h))

abbrev held_from : List ℕ → List ℕ → List ℕ → List ℕ → Held
held_from ls ns hs cs = record { lows = ls; normals = ns; highs = hs; criticals = cs }

dequeue_low-Finds :
    (limit : ℕ) (s : QueueSet) (ls : List ℕ)
    → SetHolds limit s (held_from ls [] [] [])
    → Finds limit (held_from ls [] [] []) (dequeue_low s)
unfolding dequeue_low
dequeue_low-Finds limit s ls v =
    let (e, w, c) = dequeue_if limit s.lows ls v.low_cap v.low_held in
    (held_from (tail ls) [] [] [], with_queue limit s _ _ _ low v w c, e, refl)

dequeue_normal-Finds :
    (limit : ℕ) (s : QueueSet) (ls ns : List ℕ)
    → SetHolds limit s (held_from ls ns [] [])
    → Finds limit (held_from ls ns [] []) (dequeue_normal s)
unfolding dequeue_normal
dequeue_normal-Finds limit s ls [] v =
    let (e, w, c) = dequeue_if limit s.normals [] v.normal_cap v.normal_held in
    rw (e, dequeue_normal)
      (dequeue_low-Finds limit (record s { normals = (try_dequeue false s.normals).0 }) ls
        (with_queue limit s _ _ _ normal v w c))
dequeue_normal-Finds limit s ls (x ∷ ns) v =
    let (e, w, c) = dequeue_if limit s.normals (x ∷ ns) v.normal_cap v.normal_held in
    rw (e, dequeue_normal)
      (held_from ls ns [] [], with_queue limit s _ _ _ normal v w c, refl, refl)

dequeue_high-Finds :
    (limit : ℕ) (s : QueueSet) (ls ns hs : List ℕ)
    → SetHolds limit s (held_from ls ns hs [])
    → Finds limit (held_from ls ns hs []) (dequeue_high s)
unfolding dequeue_high
dequeue_high-Finds limit s ls ns [] v =
    let (e, w, c) = dequeue_if limit s.highs [] v.high_cap v.high_held in
    rw (e, dequeue_high)
      (dequeue_normal-Finds limit (record s { highs = (try_dequeue false s.highs).0 }) ls ns
        (with_queue limit s _ _ _ high v w c))
dequeue_high-Finds limit s ls ns (x ∷ hs) v =
    let (e, w, c) = dequeue_if limit s.highs (x ∷ hs) v.high_cap v.high_held in
    rw (e, dequeue_high) (held_from ls ns hs [], with_queue limit s _ _ _ high v w c, refl, refl)

dequeue_highest-Finds :
    (limit : ℕ) (s : QueueSet) (ls ns hs cs : List ℕ)
    → SetHolds limit s (held_from ls ns hs cs)
    → Finds limit (held_from ls ns hs cs) (dequeue_highest s)
unfolding dequeue_highest
dequeue_highest-Finds limit s ls ns hs [] v =
    let (e, w, c) = dequeue_if limit s.criticals [] v.critical_cap v.critical_held in
    rw (e, dequeue_highest)
      (dequeue_high-Finds limit (record s { criticals = (try_dequeue false s.criticals).0 }) ls ns
        hs (with_queue limit s _ _ _ critical v w c))
dequeue_highest-Finds limit s ls ns hs (x ∷ cs) v =
    let (e, w, c) = dequeue_if limit s.criticals (x ∷ cs) v.critical_cap v.critical_held in
    rw (e, dequeue_highest)
      (held_from ls ns hs cs, with_queue limit s _ _ _ critical v w c, refl, refl)

pub dequeue_highest_lem :
    (limit : ℕ) (s : QueueSet) (h : Held) → SetHolds limit s h → Finds limit h (dequeue_highest s)
dequeue_highest_lem limit s h v =
    dequeue_highest-Finds limit s h.lows h.normals h.highs h.criticals v
