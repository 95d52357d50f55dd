-- ===== src/Queue/Mask.antt =====
-- `x & mask` is `x % capacity`, and the test of the constructor accepts the powers of two.
use Prim.Native.Nat.{bit_and, digits, bit_and-bitwise}
use nexus_task.Prelude.{ℕ, zero, suc, ◌+◌, ◌-◌, ◌*◌, ◌/◌, ◌%◌, ◌^◌, ◌≤◌, ◌<◌, min, ◌≡◌, refl, arith}
use native.Mathlib.Nat.{pow-suc, mod_self}
use native.Mathlib.Decide.{ℕ_discrete}
use mathlib.Core.Path.{ap}

-- The law for the lowest digit, from the definition that the native operation stands for.
abbrev and_digits : ℕ → ℕ → ℕ → ℕ
and_digits n a b = digits (λ b. zero) min n a b

and_digits-fuel : (n m a b : ℕ) → a ≤ n → a ≤ m → and_digits n a b ≡ and_digits m a b
and_digits-fuel zero zero a b p q = refl
and_digits-fuel zero (suc m) zero b p q = refl
and_digits-fuel zero (suc m) (suc a) b p q = absurd (omega arith)
and_digits-fuel (suc n) zero zero b p q = refl
and_digits-fuel (suc n) zero (suc a) b p q = absurd (omega arith)
and_digits-fuel (suc n) (suc m) zero b p q = refl
and_digits-fuel (suc n) (suc m) (suc a) b p q =
    omega (arith, and_digits-fuel n m (suc a / 2) (b / 2) (omega arith) (omega arith))

bit_and_from_zero : (mask : ℕ) → bit_and 0 mask ≡ 0
bit_and_from_zero mask = bit_and-bitwise 0 mask

-- `x & mask` from the lowest digits and from the halves.
bit_and_halves :
    (x mask : ℕ) → bit_and x mask ≡ min (x % 2) (mask % 2) + 2 * bit_and (x / 2) (mask / 2)
bit_and_halves zero mask = omega (arith, bit_and_from_zero (mask / 2), bit_and_from_zero mask)
bit_and_halves (suc x) mask =
    let half = suc x / 2 in
    let enough = and_digits-fuel x half half (mask / 2) (omega arith) (omega arith) in
    omega (arith, enough, bit_and-bitwise half (mask / 2), bit_and-bitwise (suc x) mask)

bit_and-zero_below : (n a : ℕ) → a ≤ n → bit_and a 0 ≡ 0
bit_and-zero_below n zero h = refl
bit_and-zero_below zero (suc a) h = absurd (omega arith)
bit_and-zero_below (suc n) (suc a) h =
    omega (arith, bit_and_halves (suc a) 0, bit_and-zero_below n (suc a / 2) (omega arith))

pub pow-pos : (k : ℕ) → 0 < 2 ^ k
pow-pos zero = omega arith
pow-pos (suc k) = omega (arith, pow-suc 2 k, pow-pos k)

mod_double : (x p : ℕ) → 0 < p → x % (2 * p) ≡ (x / 2) % p * 2 + x % 2
mod_double x p h = grind arith

-- A mask of k ones.
pub bit_and-mask : (k x : ℕ) → bit_and x (2 ^ k - 1) ≡ x % 2 ^ k
bit_and-mask zero x = omega (arith, bit_and-zero_below x x (omega arith))
bit_and-mask (suc k) x = omega (
  arith,
  pow-suc 2 k,
  pow-pos k,
  bit_and_halves x (2 ^ suc k - 1),
  ap (bit_and (x / 2)) half,
  bit_and-mask k (x / 2),
  mod_double x (2 ^ k) (pow-pos k),
  ap (λ (m : ℕ). x % m) double,
)
  where
    half : (2 ^ suc k - 1) / 2 ≡ 2 ^ k - 1
    half = omega (arith, pow-suc 2 k, pow-pos k)

    double : 2 ^ suc k ≡ 2 * 2 ^ k
    double = omega (arith, pow-suc 2 k)

bit_and_self_below : (n a : ℕ) → a ≤ n → bit_and a a ≡ a
bit_and_self_below n zero h = bit_and_from_zero 0
bit_and_self_below zero (suc a) h = absurd (omega arith)
bit_and_self_below (suc n) (suc a) h =
    omega (arith, bit_and_halves (suc a) (suc a), bit_and_self_below n (suc a / 2) (omega arith))

-- `n & (n - 1)` is zero for the powers of two, and for no other positive number.
pub power_of_bit_and : (n m : ℕ) → m ≤ n → 0 < m → bit_and m (m - 1) ≡ 0 → (k : ℕ) × (m ≡ 2 ^ k)
power_of_bit_and zero m h p e = absurd (omega arith)
power_of_bit_and (suc n) m h p e = elim (ℕ_discrete (m % 2) 0) [
  | yes even ↦
      let half : bit_and (m / 2) (m / 2 - 1) ≡ 0 = omega (
        arith,
        bit_and_halves m (m - 1),
        ap (bit_and (m / 2)) (let q : (m - 1) / 2 ≡ m / 2 - 1 = omega arith in q),
      ) in
      let (k, q) = power_of_bit_and n (m / 2) (omega arith) (omega arith) half in
      (suc k, omega (arith, q, pow-suc 2 k))
  | no odd ↦ (
    0,
    omega (
      arith,
      bit_and_halves m (m - 1),
      ap (bit_and (m / 2)) (let q : (m - 1) / 2 ≡ m / 2 = omega arith in q),
      bit_and_self_below (m / 2) (m / 2) (omega arith),
    ),
  )
]

pub bit_and_power : (k : ℕ) → bit_and (2 ^ k) (2 ^ k - 1) ≡ 0
bit_and_power k = omega (arith, bit_and-mask k (2 ^ k), mod_self (2 ^ k))
