-- ===== src/Config/Integers.antt =====
-- Integers in the configuration.
use nexus_task.Prelude.{
  ℕ, suc, ◌^◌, ◌<◌, ◌≡◌, refl, sym, ap, ◌∙◌, arith, Bool, true, false, none, some, [], ◌∷◌, ◌=ℕ◌,
  lookup, lookup-insert, ==_refl, ℤ, pos, negsuc, word,
}
use nexus_task.Text.{
  Bytes, bytes_eq, is_digit, show_number, read_digits, read-show_number, show_number-DigitFirst,
  DigitFirst,
}
use nexus_task.Config.{
  Config, set, get, get_int, stoi, show_int, skip_space, unsigned_part, in_int, is_space,
}
use mathlib.Core.List.{append-nil}

abbrev pub IsInt : ℤ → Type 0
IsInt (pos n) = n < 2 ^ 31
IsInt (negsuc n) = n < 2 ^ 31

DigitFirst-cases :
    (s : Bytes) → DigitFirst s → (c : ℕ) × (t : Bytes) × (s ≡ c ∷ t) × (is_digit c ≡ true)
DigitFirst-cases [] h = absurd h
DigitFirst-cases (c ∷ t) h = (c, t, refl, h)

-- A digit is neither white space nor a sign.
digit_apart :
    (c : ℕ)
    → is_digit c ≡ true
    → (is_space c ≡ false) × ((c =ℕ b'-') ≡ false) × ((c =ℕ b'+') ≡ false)
digit_apart c h = ground arith

read_all : (n : ℕ) → n < word → (read_digits 0 (show_number n)).0 ≡ n
read_all n h =
    ap (λ s. (read_digits 0 s).0) (sym (append-nil (show_number n)))
    ∙ ap (λ (r : ℕ × Bytes). r.0) (read-show_number n [] h tt)

unsigned_part-show_number :
    (negative : Bool) (n : ℕ)
    → n < word
    → unsigned_part negative (show_number n) ≡ in_int negative n
unfolding unsigned_part
unsigned_part-show_number negative n h =
    let (c, t, e, digit) = DigitFirst-cases (show_number n) (show_number-DigitFirst n) in
    let all : (read_digits 0 (c ∷ t)).0 ≡ n =
      ap (λ s. (read_digits 0 s).0) (sym e) ∙ read_all n h in
    rw (e, digit, all) refl

stoi-show_number : (n : ℕ) → n < word → stoi (show_number n) ≡ in_int false n
unfolding stoi skip_space
stoi-show_number n h =
    let (c, t, e, digit) = DigitFirst-cases (show_number n) (show_number-DigitFirst n) in
    let (space, minus, plus) = digit_apart c digit in
    let read : unsigned_part false (c ∷ t) ≡ in_int false n =
      ap (unsigned_part false) (sym e) ∙ unsigned_part-show_number false n h in
    rw e (rw (space, minus, plus) read)

-- `std::stoi` reads back what `std::to_string` prints of an `int`.
pub stoi-show_int : (z : ℤ) → IsInt z → stoi (show_int z) ≡ some z
unfolding show_int stoi skip_space
stoi-show_int (pos n) h = stoi-show_number n (omega (arith, h)) ∙ ground arith
stoi-show_int (negsuc n) h =
    unsigned_part-show_number true (suc n) (omega (arith, h)) ∙ ground arith

get-set :
    (key : Bytes) (value default_value : Bytes) (c : Config)
    → get key default_value (set key value c) ≡ value
unfolding get set
get-set key value default_value c =
    rw (lookup-insert key key value c.values, get) (rw (==_refl key) refl)

-- An `int` that is set is read back, as the text that `std::to_string` prints of it, and a key that
-- is missing reads as the default, whatever `int` that is.
pub get_int-set :
    (key : Bytes) (n default_value : ℤ) (c : Config)
    → IsInt n
    → IsInt default_value
    → (get_int key default_value (set key (show_int n) c) ≡ n)
      × (lookup key c.values ≡ none → get_int key default_value c ≡ default_value)
unfolding get_int
get_int-set key n default_value c small small_default = (
  rw (get-set key (show_int n) (show_int default_value) c, get_int)
      (rw (stoi-show_int n small) refl),
  λ missing.
      let unset : get key (show_int default_value) c ≡ show_int default_value =
        unfold get in rw (missing, get) refl in
      rw (unset, get_int) (rw (stoi-show_int default_value small_default) refl),
)
