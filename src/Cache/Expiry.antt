-- ===== src/Cache/Expiry.antt =====
-- What the cache answers: the result put last, until it expires, cleaned up in between or not.
use nexus_task.Prelude.{
  ℕ, ◌+◌, ◌≤◌, ◌≡◌, refl, ap, subst, sym, ◌∙◌, true, false, Option, none, some, List, [], ◌∷◌,
  if◌then◌else◌, ltb, lookup, has, Eq, ◌==◌, lookup-insert, arith, Option-cases, Bool-cases, inl,
  inr,
}
use nexus_task.Cache.{Cache, CacheEntry, lifetime, put, get, cleanup_expired, drop_expired}

-- What `get` answers.
abbrev alive : {R : Type 0} → ℕ → Option (CacheEntry R) → Option R
alive now none = none
alive now (some entry) = if ltb entry.expiry_time now then none else some entry.result

module _ {K R : Type 0} ⦃e : Eq K⦄ where
  -- An `unordered_map` has each key once.
  abbrev pub Distinct : List (K × CacheEntry R) → Type 0
  Distinct [] = Unit
  Distinct ((key, entry) ∷ rest) = (has key rest ≡ false) × Distinct rest

  get-alive :
      (now : ℕ) (key : K) (c : Cache K R) → (get now key c).1 ≡ alive now (lookup key c.entries)
  unfolding get
  get-alive now key c = elim (Option-cases (lookup key c.entries)) [
    | inl f ↦ rw (f, get) refl
    | inr (entry, f) ↦ elim (Bool-cases (ltb entry.expiry_time now)) [
      | inl old ↦ rw (f, old, get) refl
      | inr fresh ↦ rw (f, fresh, get) refl
    ]
  ]

  -- After `put`, `get` answers with the result up to its expiry time and with nothing later, and
  -- for another key it answers what it would have answered without the `put`.
  pub get-put :
      (now later : ℕ) (key other : K) (result : R) (ttl : Option ℕ) (c : Cache K R)
      → (get later other (put now key result ttl c)).1 ≡ (
          if key == other
          then (if ltb (now + lifetime ttl c.default_ttl) later then none else some result)
          else (get later other c).1)
  unfolding put
  get-put now later key other result ttl c =
      let expiry_time = now + lifetime ttl c.default_ttl in
      let stored =
        get-alive later other (put now key result ttl c)
        ∙ ap (alive later) (
            lookup-insert key other (record { result = result; expiry_time = expiry_time })
              c.entries) in
      elim (Bool-cases (key == other)) [
        | inl same ↦ stored ∙ rw same refl
        | inr apart ↦ stored ∙ rw apart (sym (get-alive later other c))
      ]

  lookup-none : (key : K) (m : List (K × CacheEntry R)) → has key m ≡ false → lookup key m ≡ none
  lookup-none key [] h = refl
  lookup-none key ((k, entry) ∷ m) h = ground (arith, lookup-none key m)

  lookup-drop_expired :
      (now : ℕ) (key : K) (entries : List (K × CacheEntry R))
      → Distinct entries
      → (later : ℕ) → now ≤ later
      → alive later (lookup key (drop_expired now entries)) ≡ alive later (lookup key entries)
  unfolding drop_expired
  lookup-drop_expired now key [] d later h = refl
  lookup-drop_expired now key ((k, entry) ∷ rest) d later h =
      let ih = lookup-drop_expired now key rest d.1 later h in
      elim (Bool-cases (k == key)) [
        | inl same ↦
            let gone : lookup key rest ≡ none =
              subst (λ j. lookup j rest ≡ none) ((e.decides k key).0 same)
                (lookup-none k rest d.0) in
            elim (Bool-cases (ltb entry.expiry_time now)) [
              | inl old ↦
                  let late : ltb entry.expiry_time later ≡ true = ground (arith, old, h) in
                  rw (old, same) (rw late (ih ∙ ap (alive later) gone))
              | inr fresh ↦ rw (fresh, same) refl
            ]
        | inr apart ↦ elim (Bool-cases (ltb entry.expiry_time now)) [
          | inl old ↦ rw (old, apart) ih
          | inr fresh ↦ rw (fresh, apart) ih
        ]
      ]

  -- Cleaning up is not seen from outside: at no later time does it change what `get` answers.
  pub get-cleanup_expired :
      (now later : ℕ) (key : K) (c : Cache K R)
      → Distinct c.entries
      → now ≤ later
      → (get later key (cleanup_expired now c)).1 ≡ (get later key c).1
  unfolding cleanup_expired
  get-cleanup_expired now later key c d h =
      get-alive later key (cleanup_expired now c)
      ∙ lookup-drop_expired now key c.entries d later h
      ∙ sym (get-alive later key c)
