-- ===== src/Cache.antt =====
-- include/task_engine/task_cache.hpp: TaskResultCache, results with an expiry time. A time is a
-- number of nanoseconds, a lifetime (`ttl`) one of milliseconds; each call reads the clock once.
mod Tests
pub mod Expiry
use nexus_task.Prelude.{
  ℕ, ◌+◌, ◌*◌, Bool, true, false, not, Option, none, some, List, [], ◌∷◌, if◌then◌else◌, ltb,
  lookup, insert, erase, Eq, ◌==◌, length,
}

pub record CacheEntry (R : Type 0) : Type 0 where
  pub result : R
  pub expiry_time : ℕ

pub record Cache (K R : Type 0) : Type 0 where
  pub entries : List (K × CacheEntry R)
  pub default_ttl : ℕ

unfoldable pub create : {K R : Type 0} → ℕ → Cache K R
create default_ttl = record { entries = []; default_ttl = default_ttl }

-- `ttl.value_or(default_ttl_)`, in nanoseconds.
unfoldable pub lifetime : Option ℕ → ℕ → ℕ
lifetime none default_ttl = 1000000 * default_ttl
lifetime (some ttl) default_ttl = 1000000 * ttl

module _ {K R : Type 0} ⦃e : Eq K⦄ where
  unfoldable pub put : ℕ → K → R → Option ℕ → Cache K R → Cache K R
  put now key result ttl c = record c {
    entries =
        insert key (record { result = result; expiry_time = now + lifetime ttl c.default_ttl })
          c.entries;
  }

  unfoldable pub get : ℕ → K → Cache K R → Cache K R × Option R
  get now key c = elim (lookup key c.entries) [
    | none ↦ (c, none)
    | some entry ↦
        if ltb entry.expiry_time now
        then (record c { entries = erase key c.entries }, none)
        else (c, some entry.result)
  ]

  unfoldable pub contains : ℕ → K → Cache K R → Cache K R × Bool
  contains now key c =
      let (c', got) = get now key c in (c', elim got [ none ↦ false | some result ↦ true ])

  unfoldable pub remove : K → Cache K R → Cache K R
  remove key c = record c { entries = erase key c.entries }

-- The loop of `cleanup_expired`.
pub drop_expired : {K R : Type 0} → ℕ → List (K × CacheEntry R) → List (K × CacheEntry R)
drop_expired now [] = []
drop_expired now ((key, entry) ∷ rest) =
    let kept = drop_expired now rest in
    if ltb entry.expiry_time now then kept else (key, entry) ∷ kept

unfoldable pub cleanup_expired : {K R : Type 0} → ℕ → Cache K R → Cache K R
unfolding drop_expired
cleanup_expired now c = record c { entries = drop_expired now c.entries }

unfoldable pub clear : {K R : Type 0} → Cache K R → Cache K R
clear c = record c { entries = [] }

unfoldable pub size : {K R : Type 0} → Cache K R → ℕ
size c = length c.entries
