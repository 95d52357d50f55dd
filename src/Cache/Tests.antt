-- ===== src/Cache/Tests.antt =====
-- TaskResultCache with numbers for keys: the theorems at it.
use nexus_task.Prelude.{ℕ, ◌≡◌, none, [], ◌∷◌, nat_eq}
use nexus_task.Cache.{Cache, put, get}
use nexus_task.Cache.Expiry.{get-put}

abbrev cache : Cache ℕ ℕ
cache = record {
  entries =
      (1, record { result = 10; expiry_time = 50 })
      ∷ (2, record { result = 20; expiry_time = 90 })
      ∷ [];
  default_ttl = 1;
}

get-put_example : (get 60 2 (put 40 1 11 none cache)).1 ≡ (get 60 2 cache).1
get-put_example = get-put 40 60 1 2 11 none cache
