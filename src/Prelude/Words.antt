-- ===== src/Prelude/Words.antt =====
-- Unsigned 64-bit words (`size_t`, `uint64_t`) and signed numbers (`int`, `int64_t`).
use Prim.Native.Nat.{ℕ, ◌+◌, ◌-◌, ◌%◌, ◌^◌}
use mathlib.Core.Bool.{Bool, false}
use Prim.Native.Nat.{zero, suc, ◌/◌}
use Prim.Native.String as Text
use Prim.Native.String.{String}
use mathlib.Core.List.{[], ◌∷◌}
use nexus_task.Prelude.Lists.{get_or}
use nexus_task.Prelude.Tests.{leb, ltb, if◌then◌else◌}

abbrev pub word : ℕ
word = 2 ^ 64

-- Addition and subtraction wrap.
abbrev pub add64 : ℕ → ℕ → ℕ
add64 a b = (a + b) % word

abbrev pub sub64 : ℕ → ℕ → ℕ
sub64 a b = (a + word - b) % word

-- `negsuc n` is -(n + 1).
pub data ℤ : Type 0 where
  pos : ℕ → ℤ
  negsuc : ℕ → ℤ

-- The conversion of a signed number to `uint64_t`.
abbrev pub to_word : ℤ → ℕ
to_word (pos n) = n % word
to_word (negsuc n) = word - 1 - n % word

abbrev pub is_positive : ℤ → Bool
is_positive (pos n) = leb 1 n
is_positive (negsuc n) = false

abbrev pub is_zero : ℤ → Bool
is_zero (pos n) = leb n 0
is_zero (negsuc n) = false

abbrev pub succ_ℤ : ℤ → ℤ
succ_ℤ (pos n) = pos (n + 1)
succ_ℤ (negsuc n) = if leb n 0 then pos 0 else negsuc (n - 1)

abbrev pub pred_ℤ : ℤ → ℤ
pred_ℤ (pos n) = if leb n 0 then negsuc 0 else pos (n - 1)
pred_ℤ (negsuc n) = negsuc (n + 1)

digit : ℕ → String
digit n = get_or ("0" ∷ "1" ∷ "2" ∷ "3" ∷ "4" ∷ "5" ∷ "6" ∷ "7" ∷ "8" ∷ "9" ∷ []) n ""

-- Concatenation of texts.
abbrev pub join : String → String → String
join = Text.◌++◌

decimal : ℕ → ℕ → String
unfolding digit
decimal zero n = ""
decimal (suc digits) n =
    let rest = decimal digits (n / 10) in if ltb n 10 then digit n else join rest (digit (n % 10))

-- `std::to_string`: a 64-bit word has at most twenty digits.
unfoldable pub to_string : ℕ → String
unfolding decimal
to_string n = decimal 20 n
