-- ===== src/Ring/Walk.antt =====
-- The loops of responsible_global and responsible_local (src/hash_ring/hash_ring.cpp): walk the ring
-- from a position, around its end, until enough different nodes were met.
pub mod Distinct
pub mod Stops
use anna.Prelude.{
  ℕ, zero, suc, ◌+◌, Eq, ◌==◌, Bool, true, false, ◌||◌, Option, none, some, List, [], ◌∷◌, ◌++◌,
  if◌then◌else◌, ltb, take,
}

-- `key` is what the nodes are compared by: the id of a thread, or its number.
module _ {A K : Type 0} ⦃e : Eq K⦄ (key : A → K) where
  -- `std::find(threads.begin(), threads.end(), x) != threads.end()`
  unfoldable pub has : A → List A → Bool
  has x [] = false
  has x (y ∷ threads) = key y == key x || has x threads

  -- One round of the loop, on its two variables.
  abbrev pub visit : A → List A × ℕ → List A × ℕ
  visit x (threads, i) = if has x threads then (threads, i) else (threads ++ x ∷ [], i + 1)

  -- `while (i < rep) { …; if (++pos == ring.end()) pos = ring.begin(); }`. The iterator is the rest
  -- of the ring from its position, which is never empty in the loop. `none`: out of fuel.
  unfoldable pub walk : ℕ → ℕ → List A → List A → List A × ℕ → Option (List A)
  walk zero rep ring pos s = none
  walk (suc fuel) rep ring [] s = none
  walk (suc fuel) rep ring (x ∷ []) s =
      let rest = walk fuel rep ring ring (visit x s) in if ltb s.1 rep then rest else some s.0
  walk (suc fuel) rep ring (x ∷ y ∷ pos) s =
      let rest = walk fuel rep ring (y ∷ pos) (visit x s) in if ltb s.1 rep then rest else some s.0

  -- The reference: the nodes of a list without repetition, in the order of their first occurrence.
  unfoldable pub distinct_from : List A → List A → List A
  distinct_from seen [] = []
  distinct_from seen (x ∷ xs) =
      if has x seen then distinct_from seen xs else x ∷ distinct_from (seen ++ x ∷ []) xs

  abbrev pub distinct : List A → List A
  distinct xs = distinct_from [] xs
