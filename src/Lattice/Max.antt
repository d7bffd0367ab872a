-- ===== src/Lattice/Max.antt =====
-- BoolLattice and MaxLattice<unsigned> of common/include/lattices/core_lattices.hpp.
use anna.Prelude.{
  ℕ, ◌+◌, ◌-◌, ◌<◌, ◌%◌, max, ◌≡◌, refl, Bool, false, ◌||◌, arith, ltb, if◌then◌else◌, or_comm,
  or_assoc, or_idem, ℤ, pos, negsuc,
}
use anna.Lattice.{Lattice}

-- `element |= e`
unfoldable pub merge_bool : Bool → Bool → Bool
merge_bool element e = element || e

pub bool_lattice : Lattice Bool
unfolding merge_bool
bool_lattice = record {
  View = Bool;
  view = λ b. b;
  join = ◌||◌;
  IsValid = λ _. Unit;
  bot = false;
  merge = merge_bool;
  join_comm = or_comm;
  join_assoc = or_assoc;
  join_idem = or_idem;
  join-bot = λ u. refl;
  bot-IsValid = tt;
  merge-IsValid = λ _ _ _ _. tt;
  view-merge = λ _ _ _ _. refl;
}

-- The conversion of an `unsigned` to an `int`, in two's complement.
unfoldable pub to_int : ℕ → ℤ
to_int x = if ltb x 0x8000_0000 then pos x else negsuc (0xffff_ffff - x)

-- The conversion back, which `current < e` makes, since one side of the comparison is unsigned.
unfoldable pub to_unsigned : ℤ → ℕ
to_unsigned (pos n) = n % 0x1_0000_0000
to_unsigned (negsuc n) = 0xffff_ffff - n % 0x1_0000_0000

-- `int current = this->element; if (current < e) this->element = e;`
unfoldable pub merge_max : ℕ → ℕ → ℕ
unfolding to_int to_unsigned
merge_max element e =
    let current = to_int element in if ltb (to_unsigned current) e then e else element

-- `add` and `subtract`, which wrap around.
unfoldable pub add : ℕ → ℕ → ℕ
add element n = (element + n) % 0x1_0000_0000

unfoldable pub subtract : ℕ → ℕ → ℕ
subtract element n = (element + 0x1_0000_0000 - n) % 0x1_0000_0000

abbrev pub IsUnsigned : ℕ → Type 0
IsUnsigned n = n < 0x1_0000_0000

-- On values of 32 bits the merge through the local `int` is the maximum, also from 2 ^ 31 up, where
-- the `int` is negative.
pub merge_max-max : (element e : ℕ) → IsUnsigned element → merge_max element e ≡ max element e
unfolding merge_max
merge_max-max element e h = ground arith

-- `subtract` undoes `add` on 32-bit values, and both stay within 32 bits.
pub subtract-add :
    (element n : ℕ)
    → IsUnsigned element
    → IsUnsigned n
    → (subtract (add element n) n ≡ element) × IsUnsigned (add element n)
unfolding add subtract
subtract-add element n h k = omega arith

abbrev pub max_lattice : Lattice ℕ
max_lattice = record {
  View = ℕ;
  view = λ n. n;
  join = max;
  IsValid = IsUnsigned;
  bot = 0;
  merge = merge_max;
  join_comm = λ u v. omega arith;
  join_assoc = λ u v w. omega arith;
  join_idem = λ u. omega arith;
  join-bot = λ u. omega arith;
  bot-IsValid = omega arith;
  merge-IsValid = λ a b h k. omega (arith, merge_max-max a b h);
  view-merge = λ a b h k. merge_max-max a b h;
}
