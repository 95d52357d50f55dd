-- ===== src/Scheduler/Due.antt =====
-- What the scheduler takes out, keeps and puts back.
use nexus_task.Prelude.{
  ℕ, zero, suc, ◌+◌, ◌≤◌, ◌≡◌, refl, sym, subst, Bool, true, false, not, ◌&&◌, ◌||◌, Option, none,
  some, List, [], ◌∷◌, if◌then◌else◌, ltb, leb, ◌=ℕ◌, length, arith, Option-cases, Bool-cases, inl,
  inr,
}
use nexus_task.Scheduler.{ScheduledTask, Scheduler, push, pop, rebuild, cancel, take_due}

module _ {F : Type 0} where
  -- How many tasks pass a test.
  abbrev pub tally : (ScheduledTask F → Bool) → List (ScheduledTask F) → ℕ
  tally f [] = 0
  tally f (t ∷ ts) = (if f t then 1 else 0) + tally f ts

  abbrev pub AllFrom : ℕ → List (ScheduledTask F) → Type 0
  AllFrom time [] = Unit
  AllFrom time (t ∷ ts) = (time ≤ t.scheduled_time) × AllFrom time ts

  abbrev pub Popped :
      List (ScheduledTask F) → Option (ScheduledTask F × List (ScheduledTask F)) → Type 0
  Popped q none = q ≡ []
  Popped q (some (t, rest)) =
      AllFrom t.scheduled_time q
      × (length q ≡ length rest + 1)
      × ((f : ScheduledTask F → Bool) → tally f q ≡ (if f t then 1 else 0) + tally f rest)

  AllFrom-le : (a b : ℕ) (q : List (ScheduledTask F)) → a ≤ b → AllFrom b q → AllFrom a q
  AllFrom-le a b [] h v = tt
  AllFrom-le a b (t ∷ ts) h v = (omega (arith, v.0), AllFrom-le a b ts h v.1)

  -- The top is a task whose time is least, and `pop` takes it out once and nothing else.
  pub pop_lem : (q : List (ScheduledTask F)) → Popped q (pop q)
  unfolding pop
  pop_lem [] = refl
  pop_lem (t ∷ ts) = elim (Option-cases (pop ts)) [
    | inl e ↦
        let empty : ts ≡ [] = subst (Popped ts) e (pop_lem ts) in
        rw (e, pop) (rw empty ((omega arith, tt), refl, λ f. refl))
    | inr ((u, rest), e) ↦
        let (least, len, kept) = subst (Popped ts) e (pop_lem ts) in
        elim (Bool-cases (ltb u.scheduled_time t.scheduled_time)) [
          | inl before ↦
              rw (e, before, pop)
                ((ground (arith, before), least), omega (arith, len), λ f. omega (arith, kept f))
          | inr after ↦
              rw (e, after, pop)
                (
                  (
                    omega arith,
                    AllFrom-le t.scheduled_time u.scheduled_time ts (ground (arith, after)) least,
                  ),
                  omega arith,
                  λ f. refl,
                )
        ]
  ]

  tally-push :
      (f : ScheduledTask F → Bool) (t : ScheduledTask F) (q : List (ScheduledTask F))
      → tally f (push t q) ≡ tally f q + (if f t then 1 else 0)
  unfolding push
  tally-push f t [] = omega arith
  tally-push f t (u ∷ q) = omega (arith, tally-push f t q)

  -- The tasks with another id.
  abbrev pub others : ℕ → (ScheduledTask F → Bool) → ScheduledTask F → Bool
  others id f t = f t && not (t.id =ℕ id)

  abbrev pub has_id : ℕ → ScheduledTask F → Bool
  has_id id t = t.id =ℕ id

  rebuild_end :
      (fuel id : ℕ) (q temp : List (ScheduledTask F)) (found : Bool)
      → pop q ≡ none
      → rebuild fuel id q temp found ≡ some (temp, found)
  unfolding rebuild
  rebuild_end zero id q temp found e = rw (e, rebuild) refl
  rebuild_end (suc fuel) id q temp found e = rw (e, rebuild) refl

  -- What the loop leaves: the tasks with another id, and whether there was one with the id.
  abbrev Rebuilt :
      ℕ
      → List (ScheduledTask F)
      → List (ScheduledTask F)
      → Bool
      → Option (List (ScheduledTask F) × Bool)
      → Type 0
  Rebuilt id q temp found r =
      (out : List (ScheduledTask F)) × (b : Bool) × (r ≡ some (out, b))
      × ((f : ScheduledTask F → Bool) → tally f out ≡ tally f temp + tally (others id f) q)
      × (b ≡ (found || ltb 0 (tally (has_id id) q)))

  rebuild-none :
      (fuel id : ℕ) (q temp : List (ScheduledTask F)) (found : Bool)
      → pop q ≡ none
      → Rebuilt id q temp found (rebuild fuel id q temp found)
  rebuild-none fuel id q temp found e =
      let empty : q ≡ [] = subst (Popped q) e (pop_lem q) in
      (
        temp,
        found,
        rebuild_end fuel id q temp found e,
        λ f. rw empty (omega arith),
        rw empty (ground arith),
      )

  rebuild_lem :
      (fuel id : ℕ) (q temp : List (ScheduledTask F)) (found : Bool)
      → length q ≤ fuel
      → Rebuilt id q temp found (rebuild fuel id q temp found)
  unfolding rebuild
  rebuild_lem zero id q temp found h = elim (Option-cases (pop q)) [
    | inl e ↦ rebuild-none zero id q temp found e
    | inr ((t, rest), e) ↦
        let (least, len, kept) = subst (Popped q) e (pop_lem q) in absurd (omega (arith, len))
  ]
  rebuild_lem (suc fuel) id q temp found h = elim (Option-cases (pop q)) [
    | inl e ↦ rebuild-none (suc fuel) id q temp found e
    | inr ((t, rest), e) ↦
        let (least, len, kept) = subst (Popped q) e (pop_lem q) in
        let same = t.id =ℕ id in
        let (out, b, r, outs, bs) =
          rebuild_lem fuel id rest (if same then temp else push t temp)
            (if same then true else found) (omega (arith, len)) in
        (
          out,
          b,
          rw (e, rebuild) r,
          λ f. ground (arith, outs f, kept (others id f), tally-push f t temp),
          ground (arith, bs, kept (has_id id)),
        )
  ]

  -- `cancel` ends. It takes out all the tasks with the id and leaves every other, and it answers
  -- whether there was one.
  pub cancel_lem :
      (id : ℕ) (s : Scheduler F)
      → (s' : Scheduler F) × (found : Bool) × (cancel id s ≡ some (s', found))
        × ((f : ScheduledTask F → Bool)
            → tally f s'.scheduled_tasks ≡ tally (others id f) s.scheduled_tasks)
        × (found ≡ ltb 0 (tally (has_id id) s.scheduled_tasks))
  unfolding cancel
  cancel_lem id s =
      let q = s.scheduled_tasks in
      let (out, b, r, outs, bs) = rebuild_lem (length q) id q [] false (omega arith) in
      (record s { scheduled_tasks = out }, b, rw (r, cancel) refl, λ f. omega (arith, outs f), bs)

  -- What a round does: it takes out a task that is due, before which none of the others is due, and
  -- keeps the others; or it takes out nothing, and then no task is due.
  abbrev pub Round : ℕ → Scheduler F → Scheduler F × Option (ScheduledTask F) → Type 0
  Round now s (s', none) = (s' ≡ s) × AllFrom (now + 1) s.scheduled_tasks
  Round now s (s', some t) =
      (t.scheduled_time ≤ now)
      × AllFrom t.scheduled_time s.scheduled_tasks
      × ((f : ScheduledTask F → Bool)
          → tally f s.scheduled_tasks ≡ (if f t then 1 else 0) + tally f s'.scheduled_tasks)

  -- A round of the loop takes out a task that is due, before which none of the others is due, and
  -- keeps the others; it takes out nothing only if no task is due, and then it changes nothing.
  pub take_due_lem : (now : ℕ) (s : Scheduler F) → Round now s (take_due now s)
  unfolding take_due
  take_due_lem now s =
      let q = s.scheduled_tasks in
      elim (Option-cases (pop q)) [
        | inl e ↦
            let empty : q ≡ [] = subst (Popped q) e (pop_lem q) in
            rw (e, take_due) (refl, subst (AllFrom (now + 1)) (sym empty) tt)
        | inr ((t, rest), e) ↦
            let (least, len, kept) = subst (Popped q) e (pop_lem q) in
            elim (Bool-cases (leb t.scheduled_time now)) [
              | inl due ↦ rw (e, due, take_due) (ground (arith, due), least, kept)
              | inr early ↦
                  rw (e, early, take_due)
                    (refl, AllFrom-le (now + 1) t.scheduled_time q (ground (arith, early)) least)
            ]
      ]
