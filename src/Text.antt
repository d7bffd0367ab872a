-- ===== src/Text.antt =====
-- `std::string` as the list of its bytes, and what the program does with strings: `split` of
-- common/include/common.hpp, `std::to_string` and `stoi`.
pub mod Decimal
pub mod Split
use Prim.Native.Char.{code}
use Prim.Native.String.{String}
use anna.Prelude.{
  ℤ, pos, negsuc, ℕ, zero, suc, ◌+◌, ◌-◌, ◌*◌, ◌/◌, ◌%◌, ◌==◌, nat_eq, Bool, true, false, ◌&&◌,
  Option, none, some, List, [], ◌∷◌, ◌++◌, if◌then◌else◌, ltb,
}

abbrev pub Text : Type 0
Text = List ℕ

-- The bytes of a literal, which is ASCII wherever this is used.
abbrev pub codes : String → Text
codes String.[] = []
codes (String.◌∷◌ c s) = code c ∷ codes s

-- The decimal digits of `n`, in front of `rest`. `n + 1` rounds are enough.
digits : ℕ → ℕ → Text → Text
digits zero n rest = rest
digits (suc fuel) n rest =
    let more = digits fuel (n / 10) ((48 + n % 10) ∷ rest) in
    if ltb n 10 then (48 + n) ∷ rest else more

-- `std::to_string(n)` of an unsigned number
unfoldable pub to_string : ℕ → Text
unfolding digits
to_string n = digits (suc n) n []

-- The number that a run of digits stands for, after the number `n`; `none` at another byte.
value_from : ℕ → Text → Option ℕ
value_from n [] = some n
value_from n (c ∷ cs) =
    if ltb c 48 then none else if ltb 57 c then none else value_from (n * 10 + (c - 48)) cs

-- `stoi(s)` of a string of digits; `none` where the string is empty or has another byte. (`stoi`
-- skips blanks and stops at the first other byte; no message of the program has any.)
unfoldable pub stoi : Text → Option ℕ
unfolding value_from
stoi [] = none
stoi (c ∷ cs) = value_from 0 (c ∷ cs)

-- `stoi` of a number with a sign in front
abbrev pub negated : Option ℕ → Option ℤ
negated none = none
negated (some zero) = some (pos zero)
negated (some (suc n)) = some (negsuc n)

abbrev pub unsigned : Option ℕ → Option ℤ
unsigned none = none
unsigned (some n) = some (pos n)

unfoldable pub stoi_int : Text → Option ℤ
stoi_int [] = none
stoi_int (c ∷ cs) =
    let below = negated (stoi cs) in
    let above = unsigned (stoi (c ∷ cs)) in if c == 45 then below else above

-- `std::to_string` of an `int`
abbrev pub int_to_string : ℤ → Text
int_to_string (pos n) = to_string n
int_to_string (negsuc n) = 45 ∷ to_string (suc n)

-- The loop of `split`: `std::getline` until it fails. A last item that is empty is not read.
unfoldable pub split_from : Text → Text → ℕ → List Text
split_from [] [] delim = []
split_from (c ∷ item) [] delim = (c ∷ item) ∷ []
split_from item (c ∷ cs) delim =
    let end = item ∷ split_from [] cs delim in
    let more = split_from (item ++ c ∷ []) cs delim in if c == delim then end else more

unfoldable pub split : Text → ℕ → List Text
unfolding split_from
split s delim = split_from [] s delim
