-- ===== src/Task/Life.antt =====
-- The life of one task: what each operation makes of its status, its flags and its counters.
use nexus_task.Prelude.{
  add64, Bool, ℕ, zero, suc, refl, ap, ◌∙◌, Bool-cases, inl, inr, Option, none, some, if◌then◌else◌,
  ◌+◌, ◌<◌, ◌≡◌, false, arith, ltb, word,
}
use nexus_task.Task.{
  Task, TaskStatus, completed, cancelled, Outcome, returns, throws, Readings, execute, Exception,
  can_retry, reset_for_retry, failed,
}

-- The status that a run ends with, by how it ended and whether the task was cancelled before.
abbrev pub ended_as {ℓ} : {A : Type ℓ} → Bool → Outcome A → TaskStatus
ended_as is_cancelled (returns a) = completed
ended_as is_cancelled (throws e) = if is_cancelled then cancelled else failed

-- `execute` ends in a terminal status: `completed` if it returns, and if it throws then `cancelled`
-- or `failed`, by whether the task was cancelled before. It counts an attempt unless it was.
pub execute_status {ℓ} :
    {A : Type ℓ} (r : Readings) (outcome : Outcome A) (t : Task)
    → let (t', result) = execute r outcome t in
      (t'.status ≡ ended_as t.is_cancelled result)
      × (t'.attempts ≡ (if t.is_cancelled then t.attempts else add64 t.attempts 1))
unfolding execute
execute_status r (returns a) t = (ground arith, ground arith)
execute_status r (throws a) t = (ground arith, ground arith)

-- After at least one attempt, a task that is not cancelled may be retried exactly if it has had at
-- most `max_retries` attempts.
pub can_retry_lem :
    (t : Task)
    → t.is_cancelled ≡ false
    → 0 < t.attempts
    → t.attempts < word
    → can_retry t ≡ ltb t.attempts (t.options.max_retries + 1)
unfolding can_retry
can_retry_lem t h p w = ground arith

-- The runs of a task that throws each time, by the rule of `handle_failure`: `execute`, and then
-- `reset_for_retry` and again if `can_retry` allows it. On fuel; `none` is a life that goes on.
pub life : ℕ → (ℕ → Readings) → Exception → Task → Option Task
unfolding execute can_retry reset_for_retry
life zero clock e t = none
life (suc fuel) clock e t =
    let failing : Outcome ℕ = throws e in
    let t' = (execute (clock fuel) failing t).0 in
    let rest = life fuel clock e (reset_for_retry t') in if can_retry t' then rest else some t'

-- One failing run of a task that is not cancelled.
failing_run :
    (r : Readings) (e : Exception) (t : Task)
    → t.is_cancelled ≡ false
    → t.attempts + 1 < word
    → let failing : Outcome ℕ = throws e in
      let t' = (execute r failing t).0 in
      (t'.attempts ≡ t.attempts + 1)
      × (t'.is_cancelled ≡ false)
      × (t'.options ≡ t.options)
      × (t'.status ≡ failed)
unfolding execute
failing_run r e t h w = ground arith

reset_fields :
    (t : Task)
    → ((reset_for_retry t).attempts ≡ t.attempts)
      × ((reset_for_retry t).is_cancelled ≡ t.is_cancelled)
      × ((reset_for_retry t).options ≡ t.options)
unfolding reset_for_retry
reset_fields t = (refl, refl, refl)

life-from :
    (fuel : ℕ) (clock : ℕ → Readings) (e : Exception) (t : Task)
    → t.is_cancelled ≡ false
    → t.options.max_retries + 1 < word
    → t.attempts + fuel ≡ t.options.max_retries + 1
    → 0 < fuel
    → (t' : Task) × (life fuel clock e t ≡ some t')
      × (t'.attempts ≡ t.options.max_retries + 1)
      × (t'.status ≡ failed)
unfolding life
life-from zero clock e t h w f pos = absurd (omega arith)
life-from (suc fuel) clock e t h w f pos =
    let failing : Outcome ℕ = throws e in
    let t' = (execute (clock fuel) failing t).0 in
    let (attempts, kept, options, status) = failing_run (clock fuel) e t h (omega arith) in
    let rule = can_retry_lem t' kept (omega (arith, attempts)) (omega (arith, attempts)) in
    let limit : t'.options.max_retries ≡ t.options.max_retries = ap (λ o. o.max_retries) options in
    elim (Bool-cases (can_retry t')) [
      | inr over ↦ (t', rw (over, life) refl, ground (arith, attempts, rule, over, limit), status)
      | inl again ↦
          let (a, c, o) = reset_fields t' in
          let limit' : (reset_for_retry t').options.max_retries ≡ t.options.max_retries =
            ap (λ o. o.max_retries) o ∙ limit in
          let (end, e', n, s) =
            life-from fuel clock e (reset_for_retry t') (c ∙ kept) (omega (arith, w, limit'))
              (omega (arith, f, limit', a, attempts))
              (ground (arith, attempts, rule, again, limit, f)) in
          (end, rw (again, life) e', omega (arith, n, limit'), s)
    ]

-- A task that is not cancelled and throws each time is run exactly `max_retries + 1` times, and ends
-- as failed.
pub life_lem :
    (clock : ℕ → Readings) (e : Exception) (t : Task)
    → t.is_cancelled ≡ false
    → t.attempts ≡ 0
    → t.options.max_retries + 1 < word
    → (t' : Task) × (life (t.options.max_retries + 1) clock e t ≡ some t')
      × (t'.attempts ≡ t.options.max_retries + 1)
      × (t'.status ≡ failed)
life_lem clock e t h zero_runs w =
    life-from (t.options.max_retries + 1) clock e t h w (omega arith) (omega arith)
