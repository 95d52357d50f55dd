-- ===== src/Text.antt =====
-- Texts as lists of bytes, with what the standard library does to them: `std::to_string` and `<<` on
-- numbers, and the digits that `std::stoi` reads.
use Prim.Native.Char.{code}
use Prim.Native.String.{String}
use native.Mathlib.Nat.{pow-suc}
use nexus_task.Prelude.{
  ℕ, zero, suc, ◌+◌, ◌-◌, ◌*◌, ◌/◌, ◌%◌, ◌^◌, ◌<◌, ◌≡◌, refl, ◌∙◌, ap, arith, Bool, true, false,
  ◌&&◌, List, [], ◌∷◌, ◌++◌, ltb, leb, if◌then◌else◌, ◌=ℕ◌, Eq, Bool-cases, inl, inr, ◌↔◌, word,
}

abbrev pub Bytes : Type 0
Bytes = List ℕ

abbrev pub codes : String → Bytes
codes String.[] = []
codes (String.◌∷◌ c s) = code c ∷ codes s

abbrev pub same_bytes : Bytes → Bytes → Bool
same_bytes [] [] = true
same_bytes (a ∷ xs) (b ∷ ys) = a =ℕ b && same_bytes xs ys
same_bytes _ _ = false

pub same_bytes_iff : (xs ys : Bytes) → (same_bytes xs ys ≡ true) ↔ (xs ≡ ys)
same_bytes_iff [] [] = ground arith
same_bytes_iff [] (b ∷ ys) = ground arith
same_bytes_iff (a ∷ xs) [] = ground arith
same_bytes_iff (a ∷ xs) (b ∷ ys) = ground (arith, same_bytes_iff xs ys)

instance abbrev pub bytes_eq : Eq Bytes
bytes_eq = record { same = same_bytes; decides = same_bytes_iff }

abbrev pub is_digit : ℕ → Bool
is_digit c = leb b'0' c && leb c b'9'

-- The digits of a number in front of `rest`.
unfoldable pub show_before : ℕ → ℕ → Bytes → Bytes
show_before zero n rest = rest
show_before (suc fuel) n rest =
    let more = show_before fuel (n / 10) ((b'0' + n % 10) ∷ rest) in
    if ltb n 10 then (b'0' + n % 10) ∷ rest else more

-- A 64-bit word has at most twenty digits.
unfoldable pub show_number : ℕ → Bytes
unfolding show_before
show_number n = show_before 20 n []

-- The number that the digits at the front spell behind `n`, and what follows them.
unfoldable pub read_digits : ℕ → Bytes → ℕ × Bytes
read_digits n [] = (n, [])
read_digits n (c ∷ s) =
    let more = read_digits (n * 10 + (c - b'0')) s in if is_digit c then more else (n, c ∷ s)

read_one :
    (n : ℕ) (rest : Bytes) → read_digits (n / 10) ((b'0' + n % 10) ∷ rest) ≡ read_digits n rest
unfolding read_digits
read_one n rest = ground arith

read_small :
    (n : ℕ) (rest : Bytes)
    → ltb n 10 ≡ true
    → read_digits 0 ((b'0' + n % 10) ∷ rest) ≡ read_digits n rest
read_small n rest small =
    ap (λ k. read_digits k ((b'0' + n % 10) ∷ rest)) (ground (arith, small)) ∙ read_one n rest

read-show_before :
    (fuel n : ℕ) (rest : Bytes)
    → n < 10 ^ suc fuel
    → read_digits 0 (show_before (suc fuel) n rest) ≡ read_digits n rest
unfolding show_before
read-show_before zero n rest h =
    let small : ltb n 10 ≡ true = ground (arith, h) in rw small (read_small n rest small)
read-show_before (suc f) n rest h = elim (Bool-cases (ltb n 10)) [
  | inl small ↦ rw small (read_small n rest small)
  | inr large ↦ rw large (
      read-show_before f (n / 10) ((b'0' + n % 10) ∷ rest) (omega (arith, pow-suc 10 (suc f)))
      ∙ read_one n rest)
]

show_before-append :
    (fuel n : ℕ) (rest tail : Bytes)
    → show_before fuel n (rest ++ tail) ≡ show_before fuel n rest ++ tail
unfolding show_before
show_before-append zero n rest tail = refl
show_before-append (suc f) n rest tail =
    ground (arith, show_before-append f (n / 10) ((b'0' + n % 10) ∷ rest) tail)

-- What follows the digits of a number.
abbrev pub Stops : Bytes → Type 0
Stops [] = Unit
Stops (c ∷ s) = is_digit c ≡ false

read-Stops : (n : ℕ) (rest : Bytes) → Stops rest → read_digits n rest ≡ (n, rest)
unfolding read_digits
read-Stops n [] h = refl
read-Stops n (c ∷ s) h = rw h refl

-- A 64-bit number is read back from its digits.
pub read-show_number :
    (n : ℕ) (rest : Bytes)
    → n < word
    → Stops rest
    → read_digits 0 (show_number n ++ rest) ≡ (n, rest)
unfolding show_number
read-show_number n rest small stops =
    rw (← show_before-append 20 n [] rest)
      (read-show_before 19 n rest (omega (arith, small)) ∙ read-Stops n rest stops)

-- The digits of a number begin with a digit.
abbrev pub DigitFirst : Bytes → Type 0
DigitFirst [] = ⊥
DigitFirst (c ∷ s) = is_digit c ≡ true

show_before-DigitFirst :
    (fuel n : ℕ) (rest : Bytes) → DigitFirst rest → DigitFirst (show_before fuel n rest)
unfolding show_before
show_before-DigitFirst zero n rest h = h
show_before-DigitFirst (suc f) n rest h =
    let digit : is_digit (b'0' + n % 10) ≡ true = ground arith in
    elim (Bool-cases (ltb n 10)) [
      | inl small ↦ rw small digit
      | inr large ↦ rw large (show_before-DigitFirst f (n / 10) ((b'0' + n % 10) ∷ rest) digit)
    ]

show_some-DigitFirst : (fuel n : ℕ) (rest : Bytes) → DigitFirst (show_before (suc fuel) n rest)
unfolding show_before
show_some-DigitFirst fuel n rest =
    let digit : is_digit (b'0' + n % 10) ≡ true = ground arith in
    elim (Bool-cases (ltb n 10)) [
      | inl small ↦ rw small digit
      | inr large ↦ rw large (show_before-DigitFirst fuel (n / 10) ((b'0' + n % 10) ∷ rest) digit)
    ]

pub show_number-DigitFirst : (n : ℕ) → DigitFirst (show_number n)
unfolding show_number
show_number-DigitFirst n = show_some-DigitFirst 19 n []
