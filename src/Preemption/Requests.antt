-- ===== src/Preemption/Requests.antt =====
-- What the requests for preemption come to.
use nexus_task.Prelude.{
  ℕ, ◌≡◌, refl, arith, true, false, ◌||◌, List, [], ◌∷◌, ltb, if◌then◌else◌, ◌=ℕ◌, insert, erase,
  has, nat_eq, Bool-cases, inl, inr,
}
use nexus_task.Task.{TaskPriority}
use nexus_task.Preemption.{
  Preemptor, rank, any_above, should_preempt, preempt_for, cancel_preemption, set_enabled,
}

-- No task has two requests: an `unordered_map` has each key once.
abbrev pub Distinct : List (ℕ × TaskPriority) → Type 0
Distinct [] = Unit
Distinct ((task, p) ∷ rest) = (has task rest ≡ false) × Distinct rest

has-insert :
    (k j : ℕ) (v : TaskPriority) (m : List (ℕ × TaskPriority))
    → has j (insert k v m) ≡ (if k =ℕ j then true else has j m)
has-insert k j v [] = refl
has-insert k j v ((i, w) ∷ m) = ground (arith, has-insert k j v m)

pub insert-Distinct :
    (k : ℕ) (v : TaskPriority) (m : List (ℕ × TaskPriority)) → Distinct m → Distinct (insert k v m)
insert-Distinct k v [] d = (refl, tt)
insert-Distinct k v ((i, w) ∷ m) d = elim (Bool-cases (i =ℕ k)) [
  | inl e ↦ rw e (ground (arith, e, d.0), d.1)
  | inr e ↦ rw e (ground (arith, e, d.0, has-insert k i v m), insert-Distinct k v m d.1)
]

erase-absent : (k : ℕ) (m : List (ℕ × TaskPriority)) → has k m ≡ false → erase k m ≡ m
erase-absent k [] h = refl
erase-absent k ((i, w) ∷ m) h = ground (arith, erase-absent k m)

-- A request counts as its priority and the requests of the other tasks.
any_above-insert :
    (k : ℕ) (v p : TaskPriority) (m : List (ℕ × TaskPriority))
    → Distinct m
    → any_above p (insert k v m) ≡ (ltb (rank p) (rank v) || any_above p (erase k m))
unfolding any_above
any_above-insert k v p [] d = ground arith
any_above-insert k v p ((i, w) ∷ m) d =
    ground (arith, any_above-insert k v p m d.1, erase-absent k m, d.0)

-- With preemption enabled and one request for each task, a request makes a task count as to be
-- preempted exactly if its priority is below the one requested, or if a request of another task asks
-- for it; the request replaces an earlier one of the same task. With preemption disabled a request
-- changes nothing and no task is to be preempted.
pub should_preempt-preempt_for :
    (id task : ℕ) (min_priority priority : TaskPriority) (r : Preemptor)
    → Distinct r.preemption_requests
    → let on = set_enabled true r in
      let off = set_enabled false r in
      (should_preempt task priority (preempt_for id min_priority on).0 ≡ (
        ltb (rank priority) (rank min_priority)
        || should_preempt task priority (cancel_preemption id on)))
      × Distinct (preempt_for id min_priority on).0.preemption_requests
      × ((preempt_for id min_priority off).0 ≡ off)
      × (should_preempt task priority off ≡ false)
unfolding should_preempt preempt_for cancel_preemption set_enabled
should_preempt-preempt_for id task min_priority priority r d = (
  any_above-insert id min_priority priority r.preemption_requests d,
  insert-Distinct id min_priority r.preemption_requests d,
  refl,
  refl,
)
