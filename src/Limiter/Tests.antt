-- ===== src/Limiter/Tests.antt =====
-- RateLimiter with three tokens: the theorems at it.
use nexus_task.Prelude.{◌≡◌, refl, [], ◌∷◌, some, true, arith, inl, inr, string_eq}
use nexus_task.Limiter.{RateLimit, RateLimiter, full_bucket}
use nexus_task.Limiter.Wait.{wait_for_token, wait_for_token_ends}
use nexus_task.Limiter.Bounds.{IsBounded, grants, grants_lem}

abbrev three : RateLimit
three = record { max_tokens = 3; refill_interval = 1000; token_refill_amount = 1 }

abbrev limiter : RateLimiter
limiter = record { default_limit = three; limits = []; buckets = ("a", full_bucket 0 three) ∷ [] }

limiter-IsBounded : IsBounded limiter
limiter-IsBounded k b e = ground arith

abbrev after : RateLimiter
after = record limiter {
  buckets =
      ("a", full_bucket 0 three)
      ∷ ("b", record { limit = three; tokens = 2; last_refill = 5 })
      ∷ [];
}

grants_lem_example : grants (1 ∷ 2 ∷ 3 ∷ 4 ∷ 5 ∷ []) "a" limiter ≡ some 3
grants_lem_example =
    grants_lem (1 ∷ 2 ∷ 3 ∷ 4 ∷ 5 ∷ []) "a" limiter (full_bucket 0 three) refl
      (omega arith, (omega arith, (omega arith, (omega arith, (omega arith, tt)))))

-- Two attempts on an empty bucket: 400 milliseconds after its refill, and 1,100.
abbrev emptied : RateLimiter
emptied = record limiter {
  buckets = ("a", record { limit = three; tokens = 0; last_refill = 0 }) ∷ [];
}

wait_for_token_ends_example :
    (l' : RateLimiter) × (wait_for_token (400000000 ∷ 1100000000 ∷ []) "a" emptied
      ≡ some (l', true))
wait_for_token_ends_example =
    wait_for_token_ends (400000000 ∷ 1100000000 ∷ []) "a" emptied
      (record { limit = three; tokens = 0; last_refill = 0 }) refl
      (omega arith, omega arith, omega arith) (omega arith, (omega arith, tt))
      (inr (inl (omega arith)))
