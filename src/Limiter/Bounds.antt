-- ===== src/Limiter/Bounds.antt =====
-- How many tokens the buckets hold, and how many calls are let through.
use nexus_task.Prelude.{
  ℕ, ◌+◌, ◌-◌, ◌/◌, ◌≤◌, ◌<◌, ◌≡◌, refl, sym, subst, Bool, Option, none, some, List, [], ◌∷◌,
  if◌then◌else◌, arith, min, lookup, insert, string_eq, lookup-insert, String, Option-cases,
  Bool-cases, inl, inr, ◌==◌, ◌∙◌, length, ==_refl,
}
use nexus_task.Limiter.{
  RateLimit, TokenBucket, RateLimiter, full_bucket, set_limit, get_bucket, refill, consume,
  try_acquire,
}

-- No bucket holds more tokens than its limit.
abbrev pub IsBounded : RateLimiter → Type 0
IsBounded l =
    (k : String) (b : TokenBucket) → lookup k l.buckets ≡ some b → b.tokens ≤ b.limit.max_tokens

refill_bound :
    (now : ℕ) (b b' : TokenBucket)
    → refill now b ≡ some b'
    → b.tokens ≤ b.limit.max_tokens
    → b'.tokens ≤ b'.limit.max_tokens
unfolding refill
refill_bound now b b' e h = ground (arith, e, h)

consume_bound :
    (b : TokenBucket)
    → b.tokens ≤ b.limit.max_tokens
    → (consume b).0.tokens ≤ (consume b).0.limit.max_tokens
unfolding consume
consume_bound b h = ground (arith, h)

get_bucket_bound :
    (now : ℕ) (category : String) (l : RateLimiter)
    → IsBounded l
    → (get_bucket now category l).tokens ≤ (get_bucket now category l).limit.max_tokens
unfolding get_bucket
get_bucket_bound now category l v = elim (Option-cases (lookup category l.buckets)) [
  | inl e ↦ rw (e, get_bucket) (omega arith)
  | inr (b, e) ↦ rw (e, get_bucket) (v category b e)
]

insert-IsBounded :
    (category : String) (b : TokenBucket) (l : RateLimiter)
    → b.tokens ≤ b.limit.max_tokens
    → IsBounded l
    → IsBounded (record l { buckets = insert category b l.buckets })
insert-IsBounded category b l h v k c e =
    let step : (if category == k then some b else lookup k l.buckets) ≡ some c =
      sym (lookup-insert category k b l.buckets) ∙ e in
    elim (Bool-cases (category == k)) [
      | inl same ↦ ground (arith, step, same, h)
      | inr other ↦
          v k c (subst (λ t. (if t then some b else lookup k l.buckets) ≡ some c) other step)
    ]

abbrev StepBounded : Option (RateLimiter × Bool) → Type 0
StepBounded none = Unit
StepBounded (some (l', got)) = IsBounded l'

acquire-StepBounded :
    (made now : ℕ) (category : String) (l : RateLimiter)
    → IsBounded l
    → StepBounded (try_acquire made now category l)
unfolding try_acquire
acquire-StepBounded made now category l v =
    elim (Option-cases (refill now (get_bucket made category l))) [
      | inl f ↦ rw (f, try_acquire) tt
      | inr (b, f) ↦
          rw (f, try_acquire)
            (insert-IsBounded category (consume b).0 l
              (consume_bound b (
                refill_bound now (get_bucket made category l) b f
                  (get_bucket_bound made category l v)))
              v)
    ]

-- `try_acquire` keeps every bucket within its limit, the one that it makes or refills included.
pub try_acquire-IsBounded :
    (made now : ℕ) (category : String) (l l' : RateLimiter) (got : Bool)
    → IsBounded l
    → try_acquire made now category l ≡ some (l', got)
    → IsBounded l'
try_acquire-IsBounded made now category l l' got v e =
    subst StepBounded e (acquire-StepBounded made now category l v)

-- `set_limit` keeps every bucket within its limit.
pub set_limit-IsBounded :
    (now : ℕ) (category : String) (limit : RateLimit) (l : RateLimiter)
    → IsBounded l
    → IsBounded (set_limit now category limit l)
unfolding set_limit
set_limit-IsBounded now category limit l v =
    insert-IsBounded category (full_bucket now limit)
      (record l { limits = insert category limit l.limits }) (omega arith) v

-- The calls of `try_acquire` at the given times, and how many of them are let through.
pub grants : List ℕ → String → RateLimiter → Option ℕ
grants [] category l = some 0
grants (now ∷ times) category l = elim (try_acquire now now category l) [
  | none ↦ none
  | some (l', got) ↦ elim (grants times category l') [
    | none ↦ none
    | some n ↦ some (if got then n + 1 else n)
  ]
]

-- The times are before the next refill.
abbrev pub BeforeRefill : TokenBucket → List ℕ → Type 0
BeforeRefill b [] = Unit
BeforeRefill b (now ∷ times) =
    ((now - b.last_refill) / 1000000 < b.limit.refill_interval) × BeforeRefill b times

BeforeRefill-consume :
    (b : TokenBucket) (times : List ℕ) → BeforeRefill b times → BeforeRefill (consume b).0 times
unfolding consume
BeforeRefill-consume b [] h = tt
BeforeRefill-consume b (now ∷ times) h = (ground (arith, h.0), BeforeRefill-consume b times h.1)

acquire_early :
    (now : ℕ) (category : String) (l : RateLimiter) (b : TokenBucket)
    → lookup category l.buckets ≡ some b
    → (now - b.last_refill) / 1000000 < b.limit.refill_interval
    → try_acquire now now category l
      ≡ some (record l { buckets = insert category (consume b).0 l.buckets }, (consume b).1)
unfolding try_acquire refill get_bucket
acquire_early now category l b e h =
    let found : get_bucket now category l ≡ b = rw (e, get_bucket) refl in
    let kept : refill now b ≡ some b = ground (arith, h) in
    rw (found, try_acquire) (rw (kept, try_acquire) refl)

-- Between two refills a category lets through as many calls as its bucket has tokens, and no more.
pub grants_lem :
    (times : List ℕ) (category : String) (l : RateLimiter) (b : TokenBucket)
    → lookup category l.buckets ≡ some b
    → BeforeRefill b times
    → grants times category l ≡ some (min (length times) b.tokens)
unfolding grants consume
grants_lem [] category l b e h = ground arith
grants_lem (now ∷ times) category l b e h =
    let l' = record l { buckets = insert category (consume b).0 l.buckets } in
    let found : lookup category l'.buckets ≡ some (consume b).0 =
      lookup-insert category category (consume b).0 l.buckets ∙ rw (==_refl category) refl in
    let rest =
      grants_lem times category l' (consume b).0 found (BeforeRefill-consume b times h.1) in
    rw (acquire_early now category l b e h.0, grants) (rw (rest, grants) (ground arith))
