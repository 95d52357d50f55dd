-- ===== src/Pool/Work.antt =====
-- ThreadPool as the work pool of the executor.
use nexus_task.Prelude.{ℕ, ◌≡◌, subst, Bool, Option, none, some, List, arith, Bool-cases, inl, inr}
use nexus_task.Task.{TaskPriority}
use nexus_task.WorkPool.{WorkPool}
use nexus_task.Pool.{Pool, submit, try_submit_to_local, submit_global, pending_tasks, shutdown}
use nexus_task.Pool.Priority.{Held}
use nexus_task.Pool.Submit.{PoolHolds, in_all, in_held, in_pool, Put, local_Put, global_Put}

-- A pool, what its queues hold, and that they do.
pub record Stocked : Type 0 where
  pub pool : Pool
  pub shared : Held
  pub owned : List Held
  pub holds : PoolHolds pool shared owned

abbrev pub held : Stocked → ℕ → ℕ
held s a = in_pool a s.shared s.owned

-- What a submission that ends leaves behind.
abbrev pub Submitted : Held → List Held → ℕ → Option (Pool × Bool) → Type 0
Submitted g hs t none = Unit
Submitted g hs t (some (pool', done)) =
    (g' : Held) × (hs' : List Held) × PoolHolds pool' g' hs'
    × Put t done (λ a. in_pool a g hs) (λ a. in_pool a g' hs')

-- `submit` puts the task into one queue, or throws and leaves the queues as they are.
pub submit-Put :
    (pool : Pool) (g : Held) (hs : List Held) (t : ℕ) (own : TaskPriority) (p : TaskPriority)
    → PoolHolds pool g hs
    → Submitted g hs t (submit pool t own (some p))
unfolding submit
submit-Put pool g hs t own p v =
    let (hs', w, put) = local_Put pool g hs v t p in
    let (g', w', put') = global_Put (try_submit_to_local pool t p).0 g hs' w t p in
    let (pool', done) = try_submit_to_local pool t p in
    elim (Bool-cases pool.running) [
      | inr off ↦ simp off (g, hs, v, λ a. omega arith)
      | inl on ↦ elim (Bool-cases done) [
        | inl e ↦
            simp (on, e)
              (
                g,
                hs',
                w,
                λ a.
                    omega
                      (arith, subst (λ b. Put t b (λ x. in_all x hs) (λ x. in_all x hs')) e put a),
              )
        | inr e ↦
            let none_put = subst (λ b. Put t b (λ x. in_all x hs) (λ x. in_all x hs')) e put in
            elim (Bool-cases (submit_global pool' t p).1) [
              | inl f ↦
                  simp (on, e, f)
                    (
                      g',
                      hs',
                      w',
                      λ a. omega (
                        arith,
                        none_put a,
                        subst (λ b. Put t b (λ x. in_held x g) (λ x. in_held x g')) f put' a,
                      ),
                    )
              | inr f ↦ simp (on, e, f) tt
            ]
      ]
    ]

stock :
    (s : Stocked) (t : ℕ) (r : Option (Pool × Bool))
    → Submitted s.shared s.owned t r
    → Option (Stocked × Bool)
stock s t none v = none
stock s t (some (pool', done)) (g', hs', w, put) =
    some (record { pool = pool'; shared = g'; owned = hs'; holds = w }, done)

abbrev Grown : Stocked → ℕ → Option (Stocked × Bool) → Type 0
Grown s t none = Unit
Grown s t (some (s', done)) = Put t done (held s) (held s')

stock-Grown :
    (s : Stocked) (t : ℕ) (r : Option (Pool × Bool)) (v : Submitted s.shared s.owned t r)
    → Grown s t (stock s t r v)
unfolding stock
stock-Grown s t none v = tt
stock-Grown s t (some (pool', done)) (g', hs', w, put) = put

pub submit_stocked : Stocked → ℕ → TaskPriority → Option (Stocked × Bool)
unfolding stock
submit_stocked s t p =
    stock s t (submit s.pool t p (some p)) (submit-Put s.pool s.shared s.owned t p p s.holds)

pub submit_stocked-held :
    (s : Stocked) (t : ℕ) (p : TaskPriority) (s' : Stocked) (done : Bool)
    → submit_stocked s t p ≡ some (s', done)
    → Put t done (held s) (held s')
unfolding submit_stocked
submit_stocked-held s t p s' done e = subst (Grown s t) e (
    stock-Grown s t (submit s.pool t p (some p)) (submit-Put s.pool s.shared s.owned t p p s.holds))

pub stop_stocked : Stocked → Stocked
unfolding shutdown
stop_stocked s = record s {
  pool = shutdown s.pool;
  holds = record {
    global_held = s.holds.global_held;
    locals_held = s.holds.locals_held;
    sized = s.holds.sized;
    some_thread = s.holds.some_thread;
  };
}

-- The thread pool is a work pool.
unfoldable pub thread_pool : WorkPool Stocked
thread_pool = record {
  submit = submit_stocked;
  pending = λ s. pending_tasks s.pool;
  stop = stop_stocked;
  held = held;
  submit_held = submit_stocked-held;
}
