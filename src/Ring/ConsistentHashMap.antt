-- ===== src/Ring/ConsistentHashMap.antt =====
-- ConsistentHashMap of include/consistent_hash_map.hpp: the `std::map` from hash to node, as a list
-- in increasing order of the hash. An iterator is the rest of the list from its position; the empty
-- list is `end()`.
pub mod Successor
pub mod Disruption
use anna.Prelude.{ℕ, ◌<◌, Bool, true, false, List, [], ◌∷◌, if◌then◌else◌, ltb, nat_beq, length}

module _ {ℓ} {T : Type ℓ} where
  -- `nodes_.insert(value_type(hash, node))`, which leaves an entry of that hash as it is
  unfoldable pub insert : ℕ → T → List (ℕ × T) → List (ℕ × T)
  insert hash node [] = (hash, node) ∷ []
  insert hash node ((h, t) ∷ nodes) =
      if ltb hash h
      then (hash, node) ∷ (h, t) ∷ nodes
      else if nat_beq hash h
      then (h, t) ∷ nodes
      else (h, t) ∷ insert hash node nodes

  -- `nodes_.erase(hash)`
  unfoldable pub erase : ℕ → List (ℕ × T) → List (ℕ × T)
  erase hash [] = []
  erase hash ((h, t) ∷ nodes) = if nat_beq h hash then nodes else (h, t) ∷ erase hash nodes

  -- `nodes_.lower_bound(hash)`
  unfoldable pub lower_bound : ℕ → List (ℕ × T) → List (ℕ × T)
  lower_bound hash [] = []
  lower_bound hash ((h, t) ∷ nodes) = if ltb h hash then lower_bound hash nodes else (h, t) ∷ nodes

  -- `it == nodes_.end()` moves `it` to `nodes_.begin()`
  abbrev pub wrap : List (ℕ × T) → List (ℕ × T) → List (ℕ × T)
  wrap nodes [] = nodes
  wrap nodes (n ∷ rest) = n ∷ rest

  -- `find(hash)`; on an empty map both ends coincide
  unfoldable pub find : ℕ → List (ℕ × T) → List (ℕ × T)
  unfolding lower_bound
  find hash nodes = wrap nodes (lower_bound hash nodes)

  -- Every hash of the list is greater.
  abbrev pub Above : ℕ → List (ℕ × T) → Type 0
  Above hash [] = Unit
  Above hash ((h, t) ∷ nodes) = (hash < h) × Above hash nodes

  abbrev pub IsSorted : List (ℕ × T) → Type 0
  IsSorted [] = Unit
  IsSorted ((h, t) ∷ nodes) = Above h nodes × IsSorted nodes
