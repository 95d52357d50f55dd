-- ===== src/Pool/Submit.antt =====
-- ThreadPool: no task is lost or doubled between submission and a worker, and a worker that finds
-- nothing has seen every queue empty.
use mathlib.Core.List.{head?, tail}
use nexus_task.Prelude.{
  ℕ, zero, suc, ◌+◌, ◌%◌, ◌<◌, ◌≡◌, refl, ap, ◌∙◌, Bool, true, false, Option, none, some, List, [],
  ◌∷◌, ◌++◌, if◌then◌else◌, ◌=ℕ◌, ltb, arith, length, count, count-append, length-set, get_or, set,
}
use nexus_task.Task.{TaskPriority, low, normal, high, critical}
use nexus_task.Pool.{
  QueueSet, Pool, enqueue_in, dequeue_highest, try_submit_to_local, submit_global, local_of,
}
use nexus_task.Pool.Priority.{
  Held, SetHolds, in_order, at, store, no_tasks, enqueue_in_lem, dequeue_highest_lem,
}

-- The queue sets of the workers, and what each holds.
abbrev pub LocalsHold : List QueueSet → List Held → Type 0
LocalsHold [] [] = Unit
LocalsHold [] (h ∷ hs) = ⊥
LocalsHold (s ∷ ss) [] = ⊥
LocalsHold (s ∷ ss) (h ∷ hs) = SetHolds 511 s h × LocalsHold ss hs

-- `create_pool` makes queues of 2048 and of 512 cells, of which one stays free.
pub record PoolHolds (pool : Pool) (g : Held) (hs : List Held) : Type 0 where
  pub global_held : SetHolds 2047 pool.global_queue g
  pub locals_held : LocalsHold pool.local_queues hs
  pub sized : length pool.local_queues ≡ pool.num_threads
  pub some_thread : 0 < pool.num_threads

-- How often a task stands in some queues.
abbrev pub in_held : ℕ → Held → ℕ
in_held a h = count a h.criticals + (count a h.highs + (count a h.normals + count a h.lows))

abbrev pub in_all : ℕ → List Held → ℕ
in_all a [] = 0
in_all a (h ∷ hs) = in_held a h + in_all a hs

abbrev pub in_pool : ℕ → Held → List Held → ℕ
in_pool a g hs = in_held a g + in_all a hs

pub locals_at :
    (spare : QueueSet) (ss : List QueueSet) (hs : List Held) (i : ℕ)
    → LocalsHold ss hs
    → i < length ss
    → SetHolds 511 (get_or ss i spare) (get_or hs i no_tasks)
locals_at spare [] hs i v h = absurd (omega arith)
locals_at spare (s ∷ ss) [] i v h = absurd v
locals_at spare (s ∷ ss) (x ∷ hs) zero v h = v.0
locals_at spare (s ∷ ss) (x ∷ hs) (suc i) v h = locals_at spare ss hs i v.1 (omega arith)

pub locals_set :
    (ss : List QueueSet) (hs : List Held) (i : ℕ) (s : QueueSet) (h : Held)
    → LocalsHold ss hs
    → SetHolds 511 s h
    → LocalsHold (set ss i s) (set hs i h)
locals_set [] [] i s h v w = tt
locals_set [] (x ∷ hs) i s h v w = absurd v
locals_set (r ∷ ss) [] i s h v w = absurd v
locals_set (r ∷ ss) (x ∷ hs) zero s h v w = (w, v.1)
locals_set (r ∷ ss) (x ∷ hs) (suc i) s h v w = (v.0, locals_set ss hs i s h v.1 w)

pub length-locals : (ss : List QueueSet) (hs : List Held) → LocalsHold ss hs → length hs ≡ length ss
length-locals [] [] v = refl
length-locals [] (x ∷ hs) v = absurd v
length-locals (s ∷ ss) [] v = absurd v
length-locals (s ∷ ss) (x ∷ hs) v = ap suc (length-locals ss hs v.1)

pub in_all-set :
    (a : ℕ) (hs : List Held) (i : ℕ) (h : Held)
    → i < length hs
    → in_all a (set hs i h) + in_held a (get_or hs i no_tasks) ≡ in_all a hs + in_held a h
in_all-set a [] i h lt = absurd (omega arith)
in_all-set a (x ∷ hs) zero h lt = omega arith
in_all-set a (x ∷ hs) (suc i) h lt = omega (arith, in_all-set a hs i h (omega arith))

-- How the lists of a set grow by a submission.
in_held-store :
    (a t : ℕ) (b : Bool) (p : TaskPriority) (h : Held)
    → in_held a (store p (if b then at p h ++ t ∷ [] else at p h) h)
      ≡ in_held a h + (if b then (if t =ℕ a then 1 else 0) else 0)
in_held-store a t false low h = omega arith
in_held-store a t false normal h = omega arith
in_held-store a t false high h = omega arith
in_held-store a t false critical h = omega arith
in_held-store a t true low h = omega (arith, count-append a h.lows (t ∷ []))
in_held-store a t true normal h = omega (arith, count-append a h.normals (t ∷ []))
in_held-store a t true high h = omega (arith, count-append a h.highs (t ∷ []))
in_held-store a t true critical h = omega (arith, count-append a h.criticals (t ∷ []))

-- How what is held changes by a submission of `t`, accepted or not.
abbrev pub Put : ℕ → Bool → (ℕ → ℕ) → (ℕ → ℕ) → Type 0
Put t done before after =
    (a : ℕ) → after a ≡ before a + (if done then (if t =ℕ a then 1 else 0) else 0)

-- How it changes by a search: a task found is one less, and if none is found then none was held.
abbrev pub Took : Option ℕ → (ℕ → ℕ) → (ℕ → ℕ) → Type 0
Took none before after = (a : ℕ) → (before a ≡ 0) × (after a ≡ 0)
Took (some t) before after = (a : ℕ) → after a + (if t =ℕ a then 1 else 0) ≡ before a

enqueue_in-Put :
    (limit : ℕ) (s : QueueSet) (h : Held) (t : ℕ) (p : TaskPriority)
    → SetHolds limit s h
    → (h' : Held) × SetHolds limit (enqueue_in s t p).0 h'
      × Put t (enqueue_in s t p).1 (λ a. in_held a h) (λ a. in_held a h')
enqueue_in-Put limit s h t p v =
    let (e, w) = enqueue_in_lem limit s h t p v in
    (_, w, rw e (λ a. in_held-store a t (ltb (length (at p h)) limit) p h))

in_held-order : (a : ℕ) (h : Held) → count a (in_order h) ≡ in_held a h
in_held-order a h = omega (
  arith,
  count-append a h.criticals (h.highs ++ (h.normals ++ h.lows)),
  count-append a h.highs (h.normals ++ h.lows),
  count-append a h.normals h.lows,
)

Took-order :
    (order : List ℕ) (h h' : Held)
    → in_order h ≡ order
    → in_order h' ≡ tail order
    → Took (head? order) (λ a. in_held a h) (λ a. in_held a h')
Took-order [] h h' e e' =
    λ a. omega (arith, in_held-order a h, in_held-order a h', ap (count a) e, ap (count a) e')
Took-order (t ∷ order) h h' e e' =
    λ a. omega (arith, in_held-order a h, in_held-order a h', ap (count a) e, ap (count a) e')

pub dequeue-Took :
    (limit : ℕ) (s : QueueSet) (h : Held)
    → SetHolds limit s h
    → (h' : Held) × SetHolds limit (dequeue_highest s).0 h'
      × Took (dequeue_highest s).1 (λ a. in_held a h) (λ a. in_held a h')
dequeue-Took limit s h v =
    let (h', w, got, left) = dequeue_highest_lem limit s h v in
    (h', w, rw got (Took-order (in_order h) h h' refl left))

module _ (pool : Pool) (g : Held) (hs : List Held) (v : PoolHolds pool g hs) (t : ℕ)
    (p : TaskPriority) where
  pub local_Put :
      (hs' : List Held) × PoolHolds (try_submit_to_local pool t p).0 g hs'
      × Put t (try_submit_to_local pool t p).1 (λ a. in_all a hs) (λ a. in_all a hs')
  unfolding try_submit_to_local
  local_Put =
      let i = pool.next_worker % pool.num_threads in
      let lt : i < length pool.local_queues = omega (arith, v.sized, v.some_thread) in
      let (h', w, put) =
        enqueue_in-Put 511 (local_of pool.global_queue pool.local_queues i) (get_or hs i no_tasks) t
          p (locals_at pool.global_queue pool.local_queues hs i v.locals_held lt) in
      (
        set hs i h',
        record {
          global_held = v.global_held;
          locals_held = locals_set pool.local_queues hs i _ h' v.locals_held w;
          sized = length-set pool.local_queues i _ ∙ v.sized;
          some_thread = v.some_thread;
        },
        λ a. omega (
          arith,
          put a,
          in_all-set a hs i h'
              (omega (arith, lt, length-locals pool.local_queues hs v.locals_held)),
        ),
      )

  pub global_Put :
      (g' : Held) × PoolHolds (submit_global pool t p).0 g' hs
      × Put t (submit_global pool t p).1 (λ a. in_held a g) (λ a. in_held a g')
  unfolding submit_global
  global_Put =
      let (g', w, put) = enqueue_in-Put 2047 pool.global_queue g t p v.global_held in
      (
        g',
        record {
          global_held = w;
          locals_held = v.locals_held;
          sized = v.sized;
          some_thread = v.some_thread;
        },
        put,
      )
