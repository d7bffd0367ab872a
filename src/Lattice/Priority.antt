-- ===== src/Lattice/Priority.antt =====
-- PriorityLattice of common/include/lattices/priority_lattice.hpp: the smallest priority wins.
-- The priorities and `std::less` on them (of `double`, in the program) are parameters.
use mathlib.Core.List.{Memᴰ}
use anna.Prelude.{◌≡◌, Bool, true, false, List, ◌∷◌, arith, if◌then◌else◌, All}
use anna.Lattice.Winner.{IsChoice, deliver, deliver_agree, deliver_best, deliver-Memᴰ}

-- `compare(a, b)`, with what the standard asks of a comparison: a strict weak order.
pub record Compare {ℓ} (P : Type ℓ) : Type ℓ where
  pub less : P → P → Bool
  pub less_irrefl : (a : P) → less a a ≡ false
  pub less_asymm : (a b : P) → less a b ≡ true → less b a ≡ false
  pub not_less_trans : (a b c : P) → less b a ≡ false → less c b ≡ false → less c a ≡ false

pub record PriorityValuePair {ℓ} (P V : Type ℓ) : Type ℓ where
  pub priority : P
  pub value : V

module _ {ℓ} {P V : Type ℓ} (compare : Compare P) where
  -- `do_merge`
  unfoldable pub merge_priority :
      PriorityValuePair P V → PriorityValuePair P V → PriorityValuePair P V
  merge_priority element p = if compare.less p.priority element.priority then p else element

  -- The second is at least as good: its priority is not greater.
  abbrev AtMost : PriorityValuePair P V → PriorityValuePair P V → Type 0
  AtMost a b = compare.less a.priority b.priority ≡ false

  merge_priority-IsChoice : IsChoice merge_priority AtMost
  unfolding merge_priority
  merge_priority-IsChoice = record {
    one = λ a x. ground arith;
    left = λ a x.
        ground (arith, compare.less_irrefl a.priority, compare.less_asymm x.priority a.priority);
    right = λ a x. ground (arith, compare.less_irrefl x.priority);
    at_most_refl = λ a. compare.less_irrefl a.priority;
    at_most_trans = λ a b c h k. compare.not_less_trans c.priority b.priority a.priority k h;
  }

  -- What a replica holds is the initial element or one of the writes, and no merged write has a
  -- smaller priority.
  pub priority_smallest :
      (a : PriorityValuePair P V) (xs : List (PriorityValuePair P V))
      → Memᴰ (deliver merge_priority a xs) (a ∷ xs)
        × All (λ x. compare.less x.priority (deliver merge_priority a xs).priority ≡ false) xs
  priority_smallest a xs = (
    deliver-Memᴰ merge_priority merge_priority-IsChoice a xs,
    deliver_best merge_priority merge_priority-IsChoice a xs,
  )

  -- Two replicas that start from one element and merge the same writes, in any order and any number
  -- of times, agree, if no two different writes have priorities that the comparison does not tell
  -- apart.
  pub priority_convergent :
      (a : PriorityValuePair P V) (xs ys : List (PriorityValuePair P V))
      → ((x y : PriorityValuePair P V)
          → Memᴰ x (a ∷ xs)
          → Memᴰ y (a ∷ xs)
          → compare.less x.priority y.priority ≡ false
          → compare.less y.priority x.priority ≡ false
          → x ≡ y)
      → All (λ x. Memᴰ x ys) xs
      → All (λ y. Memᴰ y xs) ys
      → deliver merge_priority a xs ≡ deliver merge_priority a ys
  priority_convergent = deliver_agree merge_priority merge_priority-IsChoice
