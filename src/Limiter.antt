-- ===== src/Limiter.antt =====
-- include/task_engine/rate_limiter.hpp: RateLimiter, a token bucket for each category. A time is a
-- number of nanoseconds, the durations of a limit are numbers of milliseconds.
mod Tests
pub mod Bounds
pub mod Wait
use nexus_task.Prelude.{
  ℕ, ◌+◌, ◌-◌, ◌*◌, ◌/◌, ◌%◌, Bool, true, false, Option, none, some, List, [], ◌∷◌, if◌then◌else◌,
  ◌=ℕ◌, ltb, leb, min, lookup, insert, string_eq, String, word, add64,
}

pub record RateLimit : Type 0 where
  pub max_tokens : ℕ
  pub refill_interval : ℕ
  pub token_refill_amount : ℕ

pub record TokenBucket : Type 0 where
  pub limit : RateLimit
  pub tokens : ℕ
  pub last_refill : ℕ

pub record RateLimiter : Type 0 where
  pub default_limit : RateLimit
  pub limits : List (String × RateLimit)
  pub buckets : List (String × TokenBucket)

unfoldable pub create : RateLimit → RateLimiter
create limit = record { default_limit = limit; limits = []; buckets = [] }

abbrev pub full_bucket : ℕ → RateLimit → TokenBucket
full_bucket now limit = record { limit = limit; tokens = limit.max_tokens; last_refill = now }

unfoldable pub set_limit : ℕ → String → RateLimit → RateLimiter → RateLimiter
set_limit now category limit l = record l {
  limits = insert category limit l.limits;
  buckets = insert category (full_bucket now limit) l.buckets;
}

-- `get_bucket`: the bucket that is there or is made.
unfoldable pub get_bucket : ℕ → String → RateLimiter → TokenBucket
get_bucket now category l = elim (lookup category l.buckets) [
  | some bucket ↦ bucket
  | none ↦ full_bucket now l.default_limit
]

-- The refill of `try_acquire`; `none` is a division by zero.
unfoldable pub refill : ℕ → TokenBucket → Option TokenBucket
refill now b =
    let elapsed = (now - b.last_refill) / 1000000 in
    let tokens_to_add = (elapsed / b.limit.refill_interval * b.limit.token_refill_amount) % word in
    if ltb elapsed b.limit.refill_interval
    then some b
    else if b.limit.refill_interval =ℕ 0
    then none
    else some (record b {
      tokens = min b.limit.max_tokens (add64 b.tokens tokens_to_add);
      last_refill = now;
    })

-- The end of `try_acquire`.
unfoldable pub consume : TokenBucket → TokenBucket × Bool
consume b = if ltb 0 b.tokens then (record b { tokens = b.tokens - 1 }, true) else (b, false)

-- `try_acquire`, which reads the clock for a bucket that it makes, and then once more.
unfoldable pub try_acquire : ℕ → ℕ → String → RateLimiter → Option (RateLimiter × Bool)
try_acquire made now category l = elim (refill now (get_bucket made category l)) [
  | none ↦ none
  | some b ↦
      let (b', got) = consume b in some (record l { buckets = insert category b' l.buckets }, got)
]
