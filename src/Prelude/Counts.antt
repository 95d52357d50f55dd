-- ===== src/Prelude/Counts.antt =====
-- How often a number stands in a list, and sums over a list.
use Prim.Native.Nat.{ℕ, suc, ◌+◌, ◌≤◌, ◌<◌}
use mathlib.Core.Path.{◌≡◌, refl}
use mathlib.Core.List.{List, [], ◌∷◌, ◌++◌}
use native.Mathlib.Omega.{arith}
use native.Mathlib.Decide.{dec_lt}
use nexus_task.Prelude.Tests.{if◌then◌else◌, ◌=ℕ◌}
use nexus_task.Prelude.Lists.{length}

abbrev pub count : ℕ → List ℕ → ℕ
count a [] = 0
count a (x ∷ xs) = (if x =ℕ a then 1 else 0) + count a xs

abbrev pub sum_of : (ℕ → ℕ) → List ℕ → ℕ
sum_of f [] = 0
sum_of f (x ∷ xs) = f x + sum_of f xs

pub count-append :
    (p : ℕ) (front back : List ℕ) → count p (front ++ back) ≡ count p front + count p back
count-append p [] back = omega arith
count-append p (q ∷ front) back = let rest = count-append p front back in omega (arith, rest)

pub sum_of-append : (f : ℕ → ℕ) (xs ys : List ℕ) → sum_of f (xs ++ ys) ≡ sum_of f xs + sum_of f ys
sum_of-append f [] ys = omega arith
sum_of-append f (x ∷ xs) ys = omega (arith, sum_of-append f xs ys)

-- The first `a` is taken out.
remove_one : ℕ → List ℕ → List ℕ
remove_one a [] = []
remove_one a (x ∷ xs) = if x =ℕ a then xs else x ∷ remove_one a xs

count-remove_one :
    (a b : ℕ) (xs : List ℕ)
    → 0 < count a xs
    → count b (remove_one a xs) + (if a =ℕ b then 1 else 0) ≡ count b xs
unfolding remove_one
count-remove_one a b [] h = absurd (omega arith)
count-remove_one a b (x ∷ xs) h = ground (arith, count-remove_one a b xs)

sum_of-remove_one :
    (f : ℕ → ℕ) (a : ℕ) (xs : List ℕ)
    → 0 < count a xs
    → f a + sum_of f (remove_one a xs) ≡ sum_of f xs
unfolding remove_one
sum_of-remove_one f a [] h = absurd (omega arith)
sum_of-remove_one f a (x ∷ xs) h = ground (arith, sum_of-remove_one f a xs)

-- No number stands more often in `xs` than in `ys`.
abbrev pub Within : List ℕ → List ℕ → Type 0
Within xs ys = (a : ℕ) → count a xs ≤ count a ys

Within-tail : (x : ℕ) (xs ys : List ℕ) → Within (x ∷ xs) ys → Within xs (remove_one x ys)
Within-tail x xs ys h a = ground (arith, count-remove_one x a ys, h a, h x)

pub sum_of-Within : (f : ℕ → ℕ) (xs ys : List ℕ) → Within xs ys → sum_of f xs ≤ sum_of f ys
sum_of-Within f [] ys h = omega arith
sum_of-Within f (x ∷ xs) ys h =
    let first : 0 < count x ys = ground (arith, h x) in
    omega (
      arith,
      sum_of-remove_one f x ys first,
      sum_of-Within f xs (remove_one x ys) (Within-tail x xs ys h),
    )

sum_of-one : (xs : List ℕ) → sum_of (λ _. 1) xs ≡ length xs
sum_of-one [] = refl
sum_of-one (x ∷ xs) = omega (arith, sum_of-one xs)

pub length-Within : (xs ys : List ℕ) → Within xs ys → length xs ≤ length ys
length-Within xs ys h = omega (arith, sum_of-Within (λ _. 1) xs ys h, sum_of-one xs, sum_of-one ys)

-- A number that `xs` lacks makes the sum of `ys` larger.
pub sum_of-missing :
    (f : ℕ → ℕ) (a : ℕ) (xs ys : List ℕ)
    → Within xs ys
    → count a xs < count a ys
    → f a + sum_of f xs ≤ sum_of f ys
sum_of-missing f a xs ys h lt = sum_of-Within f (a ∷ xs) ys (λ b. ground (arith, h b))

pub sum_of-congr :
    (f g : ℕ → ℕ) (xs : List ℕ) → ((a : ℕ) → 0 < count a xs → f a ≡ g a) → sum_of f xs ≡ sum_of g xs
sum_of-congr f g [] h = refl
sum_of-congr f g (x ∷ xs) h =
    omega (arith, h x (ground arith), sum_of-congr f g xs (λ a p. h a (omega arith)))

-- A sum is covered by the numbers at which the summand is positive.
pub sum_of-cover :
    (f : ℕ → ℕ) (xs ys : List ℕ)
    → ((a : ℕ) → 0 < f a → count a xs ≤ count a ys)
    → sum_of f xs ≤ sum_of f ys
sum_of-cover f [] ys h = omega arith
sum_of-cover f (x ∷ xs) ys h = elim (dec_lt 0 (f x)) [
  | yes p ↦
      let first : 0 < count x ys = ground (arith, h x p) in
      omega (
        arith,
        sum_of-remove_one f x ys first,
        sum_of-cover f xs (remove_one x ys)
            (λ a q. ground (arith, count-remove_one x a ys, h a q, first)),
      )
  | no z ↦ omega (arith, sum_of-cover f xs ys (λ a q. ground (arith, h a q)))
]

-- The index of the first `a`.
abbrev pub position : ℕ → List ℕ → ℕ
position a [] = 0
position a (x ∷ xs) = if x =ℕ a then 0 else suc (position a xs)

pub position-append_in :
    (a : ℕ) (xs ys : List ℕ) → 0 < count a xs → position a (xs ++ ys) < length xs
position-append_in a [] ys h = absurd (omega arith)
position-append_in a (x ∷ xs) ys h = ground (arith, position-append_in a xs ys)

pub position-append_out :
    (a : ℕ) (xs ys : List ℕ) → count a xs ≡ 0 → position a (xs ++ ys) ≡ length xs + position a ys
position-append_out a [] ys h = omega arith
position-append_out a (x ∷ xs) ys h = ground (arith, position-append_out a xs ys)

pub sum_of-add :
    (f g : ℕ → ℕ) (xs : List ℕ) → sum_of (λ a. f a + g a) xs ≡ sum_of f xs + sum_of g xs
sum_of-add f g [] = omega arith
sum_of-add f g (x ∷ xs) = omega (arith, sum_of-add f g xs)

pub sum_of-zero : (xs : List ℕ) → sum_of (λ _. 0) xs ≡ 0
sum_of-zero [] = refl
sum_of-zero (x ∷ xs) = omega (arith, sum_of-zero xs)

sum_of-hits : (a : ℕ) (xs : List ℕ) → sum_of (λ x. if a =ℕ x then 1 else 0) xs ≡ count a xs
sum_of-hits a [] = refl
sum_of-hits a (x ∷ xs) = ground (arith, sum_of-hits a xs)

-- A list is counted out by the numbers that it holds, if each stands once in `xs`.
pub sum_of-count :
    (ys xs : List ℕ)
    → ((a : ℕ) → 0 < count a ys → count a xs ≡ 1)
    → sum_of (λ x. count x ys) xs ≡ length ys
sum_of-count [] xs h = sum_of-zero xs
sum_of-count (y ∷ ys) xs h = omega (
  arith,
  sum_of-add (λ x. if y =ℕ x then 1 else 0) (λ x. count x ys) xs,
  sum_of-hits y xs,
  h y (ground arith),
  sum_of-count ys xs (λ a p. h a (omega arith)),
)

-- Distinct numbers count out no more than the list holds.
pub sum_of-count-le :
    (ys xs : List ℕ) → ((a : ℕ) → count a xs ≤ 1) → sum_of (λ x. count x ys) xs ≤ length ys
sum_of-count-le [] xs h = omega (arith, sum_of-zero xs)
sum_of-count-le (y ∷ ys) xs h = omega (
  arith,
  sum_of-add (λ x. if y =ℕ x then 1 else 0) (λ x. count x ys) xs,
  sum_of-hits y xs,
  h y,
  sum_of-count-le ys xs h,
)
