-- ===== src/Config.antt =====
-- include/task_engine/config.hpp: Config. A text is its bytes. Of floating point, `std::stod` and
-- `std::to_string` are arguments of `get_double`.
mod Tests
pub mod Trim
pub mod Load
pub mod Integers
use nexus_task.Prelude.{
  ℕ, zero, suc, ◌+◌, ◌-◌, ◌^◌, Bool, true, false, ◌&&◌, ◌||◌, Option, none, some, List, [], ◌∷◌,
  ◌++◌, ltb, leb, ◌=ℕ◌, ◌==◌, if◌then◌else◌, take, drop, lookup, insert, has, ℤ, pos, negsuc,
}
use nexus_task.Text.{Bytes, codes, bytes_eq, is_digit, show_number, read_digits}

pub record Config : Type 0 where
  pub values : List (Bytes × Bytes)

abbrev pub empty : Config
empty = record { values = [] }

-- `s.find(c)`
unfoldable pub find : ℕ → Bytes → Option ℕ
find c [] = none
find c (d ∷ s) =
    let later : Option ℕ = elim (find c s) [ none ↦ none | some n ↦ some (suc n) ] in
    if d =ℕ c then some 0 else later

abbrev pub is_blank : ℕ → Bool
is_blank c = c =ℕ b' ' || c =ℕ b'\t'

-- `s.find_first_not_of(" \t")` and `s.find_last_not_of(" \t")`
unfoldable pub find_first_not_of : Bytes → Option ℕ
find_first_not_of [] = none
find_first_not_of (c ∷ s) =
    let later : Option ℕ = elim (find_first_not_of s) [ none ↦ none | some n ↦ some (suc n) ] in
    if is_blank c then later else some 0

unfoldable pub find_last_not_of : Bytes → Option ℕ
find_last_not_of [] = none
find_last_not_of (c ∷ s) = elim (find_last_not_of s) [
  | some n ↦ some (suc n)
  | none ↦ if is_blank c then none else some 0
]

-- `s.erase(0, s.find_first_not_of(" \t"))`: `npos` erases all.
unfoldable pub erase_front : Bytes → Bytes
erase_front s = elim (find_first_not_of s) [ none ↦ [] | some n ↦ drop n s ]

-- `s.erase(s.find_last_not_of(" \t") + 1)`: `npos + 1` is 0.
unfoldable pub erase_back : Bytes → Bytes
erase_back s = elim (find_last_not_of s) [ none ↦ [] | some n ↦ take (suc n) s ]

unfoldable pub set : Bytes → Bytes → Config → Config
set key value c = record c { values = insert key value c.values }

abbrev pub is_comment : Bytes → Bool
is_comment [] = false
is_comment (c ∷ s) = c =ℕ b'#'

abbrev pub is_empty : Bytes → Bool
is_empty [] = true
is_empty (c ∷ s) = false

-- The body of the loop over the lines.
unfoldable pub load_line : Bytes → Config → Config
unfolding erase_front erase_back
load_line line c = if is_empty line || is_comment line then c else elim (find b'=' line) [
  | none ↦ c
  | some at ↦
      set (erase_back (erase_front (take at line))) (erase_back (erase_front (drop (suc at) line)))
        c
]

unfoldable pub load_lines : List Bytes → Config → Config
load_lines [] c = c
load_lines (line ∷ rest) c = load_lines rest (load_line line c)

abbrev push : ℕ → List Bytes → List Bytes
push c [] = (c ∷ []) ∷ []
push c (line ∷ rest) = (c ∷ line) ∷ rest

-- The lines that `std::getline` delivers.
unfoldable pub get_lines : Bytes → List Bytes
get_lines [] = []
get_lines (c ∷ s) = if c =ℕ b'\n' then [] ∷ get_lines s else push c (get_lines s)

-- `none` is a file that cannot be opened: the loop then makes no round.
unfoldable pub load_from_file : Option Bytes → Config
load_from_file none = empty
load_from_file (some text) = load_lines (get_lines text) empty

unfoldable pub get : Bytes → Bytes → Config → Bytes
get key default_value c = elim (lookup key c.values) [ none ↦ default_value | some value ↦ value ]

-- `std::to_string` of an `int`.
unfoldable pub show_int : ℤ → Bytes
show_int (pos n) = show_number n
show_int (negsuc n) = b'-' ∷ show_number (suc n)

abbrev pub is_space : ℕ → Bool
is_space c = c =ℕ b' ' || (leb 9 c && leb c 13)

unfoldable pub skip_space : Bytes → Bytes
skip_space [] = []
skip_space (c ∷ s) = if is_space c then skip_space s else c ∷ s

abbrev pub negate : ℕ → ℤ
negate zero = pos 0
negate (suc n) = negsuc n

-- The range of an `int`.
abbrev pub in_int : Bool → ℕ → Option ℤ
in_int false n = if ltb n (2 ^ 31) then some (pos n) else none
in_int true n = if leb n (2 ^ 31) then some (negate n) else none

unfoldable pub unsigned_part : Bool → Bytes → Option ℤ
unsigned_part negative [] = none
unsigned_part negative (c ∷ s) =
    if is_digit c then in_int negative (read_digits 0 (c ∷ s)).0 else none

unfoldable pub signed_part : Bytes → Option ℤ
signed_part [] = none
signed_part (c ∷ s) =
    if c =ℕ b'-'
    then unsigned_part true s
    else if c =ℕ b'+'
    then unsigned_part false s
    else unsigned_part false (c ∷ s)

-- `std::stoi`; `none` is `invalid_argument` or `out_of_range`.
unfoldable pub stoi : Bytes → Option ℤ
unfolding signed_part unsigned_part
stoi s = signed_part (skip_space s)

unfoldable pub get_int : Bytes → ℤ → Config → ℤ
get_int key default_value c = elim (stoi (get key (show_int default_value) c)) [
  | none ↦ default_value
  | some n ↦ n
]

unfoldable pub get_double {ℓ} :
    {D : Type ℓ} → (Bytes → Option D) → (D → Bytes) → Bytes → D → Config → D
get_double stod show key default_value c = elim (stod (get key (show default_value) c)) [
  | none ↦ default_value
  | some x ↦ x
]

unfoldable pub get_bool : Bytes → Bool → Config → Bool
get_bool key default_value c =
    let value = get key [] c in
    if value == codes "true" || value == codes "1" || value == codes "yes"
    then true
    else if value == codes "false" || value == codes "0" || value == codes "no"
    then false
    else default_value

unfoldable pub has_key : Bytes → Config → Bool
has_key key c = has key c.values

abbrev firsts : List (Bytes × Bytes) → List Bytes
firsts [] = []
firsts ((key, value) ∷ m) = key ∷ firsts m

unfoldable pub keys : Config → List Bytes
keys c = firsts c.values

unfoldable pub clear : Config → Config
clear c = record c { values = [] }
