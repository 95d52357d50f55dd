-- ===== src/Chain/Links.antt =====
-- The tasks of a chain that is executed.
use nexus_task.Prelude.{
  ℕ, suc, ◌+◌, ◌-◌, ◌<◌, ◌≡◌, refl, ap, ◌∙◌, subst, arith, word, Option, none, some, List, [], ◌∷◌,
  if◌then◌else◌, ◌=ℕ◌, lookup, nat_eq, String, inl, inr, Bool-cases, Option-cases,
}
use nexus_task.Task.{TaskOptions, Outcome, returns, throws, is_ready}
use nexus_task.WorkPool.{WorkPool}
use nexus_task.Executor.{Executor, Callback, plain, enter, enqueue, submit_internal}
use nexus_task.Executor.Frame.{Same, StepSame, Same-refl}
use nexus_task.Executor.Kept.{enqueue-Same}
use nexus_task.Executor.Sound.{IsSound, enter-IsSound}
use nexus_task.Executor.Reach.{Same-IsSound}
use nexus_task.Executor.Entry.{lookup-enter, enter_alone, enter_behind}
use nexus_task.Chain.{default_options}

abbrev pub Given : ℕ → Outcome ℕ → Type 0
Given n (returns id) = id ≡ n
Given n (throws e) = Unit

module _ {S R : Type 0} where
  -- A submission that returns has entered its task, and left the map and the edges at that.
  abbrev pub Enters : Executor S R → ℕ → Option (Executor S R × Outcome ℕ) → Type 0
  Enters entered n none = Unit
  Enters entered n (some (x', reply)) = Same entered x' × Given n reply

  pub submit_internal-Enters :
      (work : WorkPool S) (now : ℕ) (name : String) (options : TaskOptions) (ds : List ℕ)
      (callback : Callback R) (promise : Option ℕ) (x : Executor S R)
      → Enters
          (enter now name options ds callback promise x)
          x.next_task_id
          (submit_internal work now name options ds callback promise x)
  unfolding submit_internal
  submit_internal-Enters work now name options ds callback promise x =
      let entered = enter now name options ds callback promise x in
      elim (Bool-cases (is_ready (entered.graph.heap x.allocated))) [
        | inr e ↦ rw (e, submit_internal) (Same-refl entered, refl)
        | inl e ↦ elim (Option-cases (enqueue work x.allocated entered)) [
          | inl f ↦ rw (e, f, submit_internal) tt
          | inr ((x', done), f) ↦
              let same : Same entered x' =
                subst (StepSame entered) f (enqueue-Same work x.allocated entered) in
              elim (Bool-cases done) [
                | inl g ↦ rw (e, f, g, submit_internal) (same, refl)
                | inr g ↦ rw (e, f, g, submit_internal) (same, tt)
              ]
        ]
      ]

  -- `n` tasks are entered since `x0`, each behind the one before.
  pub record Linked (x0 : Executor S R) (n : ℕ) (x : Executor S R) : Type 0 where
    pub sound : IsSound x
    pub next_id : x.next_task_id ≡ x0.next_task_id + n
    pub next_address : x.allocated ≡ x0.allocated + n
    pub found :
        (i : ℕ) → i < n → lookup (x0.next_task_id + i) x.graph.tasks ≡ some (x0.allocated + i)
    pub behind :
        (i : ℕ)
        → i < n
        → (x.graph.heap (x0.allocated + i)).dependencies
          ≡ (if i =ℕ 0 then [] else (x0.allocated + i - 1) ∷ [])

  pub nothing-Linked : (x0 : Executor S R) → IsSound x0 → Linked x0 0 x0
  nothing-Linked x0 v = record {
    sound = v;
    next_id = omega arith;
    next_address = omega arith;
    found = λ i h. absurd (omega arith);
    behind = λ i h. absurd (omega arith);
  }

  last_link : Executor S R → ℕ → List ℕ
  last_link x0 n = if n =ℕ 0 then [] else (x0.allocated + n - 1) ∷ []

  -- One more task.
  extend-Linked :
      (x0 x y : Executor S R) (n : ℕ)
      → Linked x0 n x
      → IsSound y
      → y.next_task_id ≡ x.next_task_id + 1
      → y.allocated ≡ x.allocated + 1
      → ((k : ℕ)
          → lookup k y.graph.tasks
            ≡ (if x.next_task_id =ℕ k then some x.allocated else lookup k x.graph.tasks))
      → ((p : ℕ)
          → (y.graph.heap p).dependencies
            ≡ (if x.allocated =ℕ p then last_link x0 n else (x.graph.heap p).dependencies))
      → Linked x0 (n + 1) y
  unfolding last_link
  extend-Linked x0 x y n v sound id address map_at edges_at = record {
    sound = sound;
    next_id = omega (arith, id, v.next_id);
    next_address = omega (arith, address, v.next_address);
    found =
        λ i h. ground (arith, map_at (x0.next_task_id + i), v.found i, v.next_id, v.next_address);
    behind = λ i h. ground (arith, edges_at (x0.allocated + i), v.behind i, v.next_address);
  }

  pub Same-Linked : (x0 x y : Executor S R) (n : ℕ) → Linked x0 n x → Same x y → Linked x0 n y
  Same-Linked x0 x y n v (e, t, i, a) = record {
    sound = Same-IsSound x y (e, t, i, a) v.sound;
    next_id = i ∙ v.next_id;
    next_address = a ∙ v.next_address;
    found = λ j h. ap (lookup (x0.next_task_id + j)) t ∙ v.found j h;
    behind = λ j h. e.dependencies_kept (x0.allocated + j) ∙ v.behind j h;
  }

  enter_counts :
      (now : ℕ) (name : String) (ds : List ℕ) (x : Executor S R)
      → x.next_task_id + 1 < word
      → let y = enter now name default_options ds (plain none) none x in
        (y.next_task_id ≡ x.next_task_id + 1) × (y.allocated ≡ x.allocated + 1)
  unfolding enter
  enter_counts now name ds x small = omega (arith, small)

  -- The first task.
  pub enter_first :
      (now : ℕ) (name : String) (x0 : Executor S R)
      → IsSound x0
      → x0.next_task_id + 1 < word
      → Linked x0 1 (enter now name default_options [] (plain none) none x0)
  unfolding last_link
  enter_first now name x0 v small =
      let y = enter now name default_options [] (plain none) none x0 in
      let (id, address) = enter_counts now name [] x0 small in
      extend-Linked x0 x0 y 0 (nothing-Linked x0 v)
        (enter-IsSound x0 v now name default_options [] (plain none) none small) id address
        (λ k. lookup-enter x0 v now name default_options (plain none) none [] k)
        (λ p. enter_alone x0 v now name default_options (plain none) none p)

  -- A later one, behind the task of the id given out last.
  pub enter_next :
      (now : ℕ) (name : String) (x0 x : Executor S R) (n : ℕ)
      → Linked x0 (suc n) x
      → x.next_task_id + 1 < word
      → Linked x0
          (suc n + 1)
          (enter now name default_options ((x0.next_task_id + n) ∷ []) (plain none) none x)
  unfolding last_link
  enter_next now name x0 x n v small =
      let prev = x0.next_task_id + n in
      let y = enter now name default_options (prev ∷ []) (plain none) none x in
      let (id, address) = enter_counts now name (prev ∷ []) x small in
      extend-Linked x0 x y (suc n) v
        (enter-IsSound x v.sound now name default_options (prev ∷ []) (plain none) none small) id
        address
        (λ k. lookup-enter x v.sound now name default_options (plain none) none (prev ∷ []) k)
        (λ p.
          enter_behind x v.sound now name default_options (plain none) none prev (x0.allocated + n)
            (v.found n (omega arith)) p
          ∙ ground arith)
