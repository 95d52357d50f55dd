-- ===== src/Limiter/Wait.antt =====
-- `wait_for_token`: attempts, ten milliseconds apart, until one gets a token.
use native.Mathlib.Nat.{le-div_iff_mul-le}
use native.Mathlib.Decide.{dec_lt}
use nexus_task.Prelude.{
  ℕ, ◌+◌, ◌-◌, ◌*◌, ◌/◌, ◌%◌, ◌≤◌, ◌<◌, ◌≡◌, ◌⊎◌, inl, inr, refl, ap, ◌∙◌, arith, Bool, true, false,
  Option, none, some, List, [], ◌∷◌, if◌then◌else◌, lookup, insert, string_eq, lookup-insert,
  String, Bool-cases, ==_refl, word, min, add64,
}
use nexus_task.Limiter.{
  RateLimit, TokenBucket, RateLimiter, get_bucket, refill, consume, try_acquire,
}

-- The readings of the clock in the attempts, one each for a bucket that is there. False stands for a
-- thread that still waits.
unfoldable pub wait_for_token : List ℕ → String → RateLimiter → Option (RateLimiter × Bool)
wait_for_token [] category l = some (l, false)
wait_for_token (now ∷ nows) category l = elim (try_acquire now now category l) [
  | none ↦ none
  | some (l', got) ↦
      let rest = wait_for_token nows category l' in if got then some (l', true) else rest
]

abbrev waited : ℕ → TokenBucket → ℕ
waited now b = (now - b.last_refill) / 1000000

-- The tokens that come due until a reading do not overflow, at each reading.
abbrev pub NoOverflow : TokenBucket → List ℕ → Type 0
NoOverflow b [] = Unit
NoOverflow b (now ∷ nows) =
    (b.tokens + waited now b / b.limit.refill_interval * b.limit.token_refill_amount < word)
    × NoOverflow b nows

-- One reading comes a whole interval after the last refill.
abbrev pub Late : TokenBucket → List ℕ → Type 0
Late b [] = ⊥
Late b (now ∷ nows) = (b.limit.refill_interval ≤ waited now b) ⊎ Late b nows

-- A bucket that gives tokens at all.
abbrev pub Gives : RateLimit → Type 0
Gives limit = (0 < limit.refill_interval) × (0 < limit.token_refill_amount) × (0 < limit.max_tokens)

refill_early :
    (now : ℕ) (b : TokenBucket) → waited now b < b.limit.refill_interval → refill now b ≡ some b
unfolding refill
refill_early now b h = ground (arith, h)

due_some : (e i a : ℕ) → 0 < i → 0 < a → i ≤ e → 0 < e / i * a
due_some e i a hi ha h =
    let whole : 1 ≤ e / i = (le-div_iff_mul-le hi).1 (omega (arith, h)) in grind arith

refill_eq :
    (now : ℕ) (b : TokenBucket)
    → 0 < b.limit.refill_interval
    → b.limit.refill_interval ≤ waited now b
    → refill now b
      ≡ some (record b {
        tokens = min b.limit.max_tokens (
            add64 b.tokens
              (waited now b / b.limit.refill_interval * b.limit.token_refill_amount % word));
        last_refill = now;
      })
unfolding refill
refill_eq now b g h = ground (arith, g, h)

kept_some : (m t d : ℕ) → 0 < m → 0 < d → t + d < word → 0 < min m (add64 t (d % word))
kept_some m t d hm hd small =
    let sum : add64 t (d % word) ≡ t + d = omega (arith, small) in rw sum (omega (arith, hm, hd))

refill_late :
    (now : ℕ) (b : TokenBucket)
    → Gives b.limit
    → b.limit.refill_interval ≤ waited now b
    → b.tokens + waited now b / b.limit.refill_interval * b.limit.token_refill_amount < word
    → (b' : TokenBucket) × (refill now b ≡ some b') × (0 < b'.tokens)
unfolding refill
refill_late now b g h small =
    let due = waited now b / b.limit.refill_interval * b.limit.token_refill_amount in
    let some_due =
      due_some (waited now b) b.limit.refill_interval b.limit.token_refill_amount g.0 g.1 h in
    (
      record b { tokens = min b.limit.max_tokens (add64 b.tokens (due % word)); last_refill = now },
      refill_eq now b g.0 h,
      kept_some b.limit.max_tokens b.tokens due g.2 some_due small,
    )

got_some : (b : TokenBucket) → 0 < b.tokens → (consume b).1 ≡ true
unfolding consume
got_some b h = ground (arith, h)

got_none : (b : TokenBucket) → (consume b).1 ≡ false → consume b ≡ (b, false)
unfolding consume
got_none b h = ground (arith, h)

-- An attempt gets a token, or it came early and leaves the bucket as it was.
attempt :
    (now : ℕ) (category : String) (l : RateLimiter) (b : TokenBucket)
    → lookup category l.buckets ≡ some b
    → Gives b.limit
    → b.tokens + waited now b / b.limit.refill_interval * b.limit.token_refill_amount < word
    → (l' : RateLimiter) × (got : Bool) × (try_acquire now now category l ≡ some (l', got))
      × (got ≡ false
          → (lookup category l'.buckets ≡ some b) × (waited now b < b.limit.refill_interval))
unfolding try_acquire get_bucket
attempt now category l b e g fits = elim (dec_lt (waited now b) b.limit.refill_interval) [
  | yes early ↦
      let same : get_bucket now category l ≡ b = rw (e, get_bucket) refl in
      (
        record l { buckets = insert category (consume b).0 l.buckets },
        (consume b).1,
        rw (same, try_acquire) (rw (refill_early now b early) refl),
        λ missed. (
          lookup-insert category category (consume b).0 l.buckets
              ∙ (rw (==_refl category) (ap some (ap (λ r. r.0) (got_none b missed)))),
          early,
        ),
      )
  | no late ↦
      let same : get_bucket now category l ≡ b = rw (e, get_bucket) refl in
      let (b', filled, some_left) = refill_late now b g (omega (arith, late)) fits in
      (
        record l { buckets = insert category (consume b').0 l.buckets },
        true,
        rw (same, try_acquire) (rw (filled) (rw (got_some b' some_left) refl)),
        λ missed. cc,
      )
]

-- A thread that is alone with the limiter does not wait for ever: if one attempt comes at least an
-- interval after the last refill of the bucket, whose limit gives tokens, and the tokens that come
-- due do not overflow, then `wait_for_token` returns with a token.
pub wait_for_token_ends :
    (nows : List ℕ) (category : String) (l : RateLimiter) (b : TokenBucket)
    → lookup category l.buckets ≡ some b
    → Gives b.limit
    → NoOverflow b nows
    → Late b nows
    → (l' : RateLimiter) × (wait_for_token nows category l ≡ some (l', true))
unfolding wait_for_token
wait_for_token_ends [] category l b e g small late = absurd late
wait_for_token_ends (now ∷ nows) category l b e g (fits, small) late =
    let (l', got, tried, missed) = attempt now category l b e g fits in
    elim (Bool-cases got) [
      | inl won ↦ (l', rw (tried, wait_for_token) (rw won refl))
      | inr lost ↦
          let (known, early) = missed lost in
          let later : Late b nows = elim late [
            | inl reached ↦ absurd (omega (arith, reached, early))
            | inr rest ↦ rest
          ] in
          let (end, done) = wait_for_token_ends nows category l' b known g small later in
          (end, rw (tried, wait_for_token) (rw lost done))
    ]
