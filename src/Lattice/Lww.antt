-- ===== src/Lattice/Lww.antt =====
-- LWWPairLattice of common/include/lattices/lww_pair_lattice.hpp: the last writer wins.
use mathlib.Core.List.{Memᴰ}
use anna.Prelude.{ℕ, ◌≤◌, ◌≡◌, ◌≢◌, List, ◌∷◌, arith, leb, if◌then◌else◌, All}
use anna.Lattice.Winner.{IsChoice, deliver, deliver_agree, deliver_best, deliver-Memᴰ}

pub record TimestampValuePair {ℓ} (T : Type ℓ) : Type ℓ where
  pub timestamp : ℕ
  pub value : T

module _ {ℓ} {T : Type ℓ} where
  -- `do_merge`: the test is `p.timestamp >= this->element.timestamp`
  unfoldable pub merge_lww : TimestampValuePair T → TimestampValuePair T → TimestampValuePair T
  merge_lww element p =
      if leb element.timestamp p.timestamp
      then record { timestamp = p.timestamp; value = p.value }
      else element

  abbrev AtMost : TimestampValuePair T → TimestampValuePair T → Type 0
  AtMost a b = a.timestamp ≤ b.timestamp

  merge_lww-IsChoice : IsChoice {A = TimestampValuePair T} merge_lww AtMost
  unfolding merge_lww
  merge_lww-IsChoice = record {
    one = λ a x. ground arith;
    left = λ a x. ground arith;
    right = λ a x. ground arith;
    at_most_refl = λ a. omega arith;
    at_most_trans = λ a b c h k. omega arith;
  }

  -- However the writes of one key are ordered, repeated or delayed, two replicas that start from
  -- one element and merge the same writes hold the same timestamp and value, if no two different
  -- writes carry one timestamp.
  pub lww_convergent :
      (a : TimestampValuePair T) (xs ys : List (TimestampValuePair T))
      → ((x y : TimestampValuePair T)
          → Memᴰ x (a ∷ xs)
          → Memᴰ y (a ∷ xs)
          → x.timestamp ≡ y.timestamp
          → x ≡ y)
      → All (λ x. Memᴰ x ys) xs
      → All (λ y. Memᴰ y xs) ys
      → deliver merge_lww a xs ≡ deliver merge_lww a ys
  lww_convergent a xs ys coherent h k =
      deliver_agree merge_lww merge_lww-IsChoice a xs ys
        (λ x y mx my p q. coherent x y mx my (omega arith)) h k

  -- What a replica holds is one of the writes, and no merged write is newer.
  pub lww_newest :
      (a : TimestampValuePair T) (xs : List (TimestampValuePair T))
      → Memᴰ (deliver merge_lww a xs) (a ∷ xs)
        × All (λ x. x.timestamp ≤ (deliver merge_lww a xs).timestamp) xs
  lww_newest a xs = (
    deliver-Memᴰ merge_lww merge_lww-IsChoice a xs,
    deliver_best merge_lww merge_lww-IsChoice a xs,
  )

  -- Two different writes with one timestamp are kept in the order of arrival: the merge of the two
  -- is never the same both ways, so replicas that see them in two orders stay apart.
  pub lww_tie :
      (x y : TimestampValuePair T)
      → x.timestamp ≡ y.timestamp
      → x.value ≢ y.value
      → merge_lww x y ≢ merge_lww y x
  unfolding merge_lww
  lww_tie x y same differ e = differ (ground arith)
