-- ===== src/Ring/ConsistentHashMap/Disruption.antt =====
-- A change of the ring moves only the keys that it has to move.
use anna.Prelude.{ℕ, ◌≡◌, ◌≢◌, refl, List, [], ◌∷◌, arith, ◌⊎◌, Option, none, some}
use anna.Ring.ConsistentHashMap.{insert, erase, lower_bound, find, wrap}

module _ {ℓ} {T : Type ℓ} where
  abbrev first : List (ℕ × T) → Option (ℕ × T)
  first [] = none
  first (n ∷ rest) = some n

  -- The node at which a look-up stops.
  abbrev pub owner : ℕ → List (ℕ × T) → Option (ℕ × T)
  owner hash nodes = first (find hash nodes)

  lower_bound-insert :
      (hash g : ℕ) (t : T) (nodes : List (ℕ × T))
      → (first (lower_bound hash (insert g t nodes)) ≡ first (lower_bound hash nodes))
        ⊎ (first (lower_bound hash (insert g t nodes)) ≡ some (g, t))
  unfolding lower_bound insert
  lower_bound-insert hash g t [] = ground arith
  lower_bound-insert hash g t ((h, u) ∷ nodes) = ground (arith, lower_bound-insert hash g t nodes)

  first-insert :
      (g : ℕ) (t : T) (nodes : List (ℕ × T))
      → (first (insert g t nodes) ≡ first nodes) ⊎ (first (insert g t nodes) ≡ some (g, t))
  unfolding insert
  first-insert g t [] = ground arith
  first-insert g t ((h, u) ∷ nodes) = ground arith

  first-wrap :
      (nodes l : List (ℕ × T))
      → first (wrap nodes l) ≡ elim (first l) [ none ↦ first nodes | some n ↦ some n ]
  first-wrap nodes [] = refl
  first-wrap nodes (n ∷ l) = refl

  -- After a node was inserted, a look-up stops where it stopped before, or at the new node.
  pub owner-insert :
      (hash g : ℕ) (t : T) (nodes : List (ℕ × T))
      → (owner hash (insert g t nodes) ≡ owner hash nodes)
        ⊎ (owner hash (insert g t nodes) ≡ some (g, t))
  unfolding find
  owner-insert hash g t nodes = ground (
    arith,
    lower_bound-insert hash g t nodes,
    first-insert g t nodes,
    first-wrap nodes (lower_bound hash nodes),
    first-wrap (insert g t nodes) (lower_bound hash (insert g t nodes)),
  )

  lower_bound-erase :
      (hash g : ℕ) (nodes : List (ℕ × T)) (n : ℕ × T)
      → first (lower_bound hash nodes) ≡ some n
      → n.0 ≢ g
      → first (lower_bound hash (erase g nodes)) ≡ some n
  unfolding lower_bound erase
  lower_bound-erase hash g [] n h other = absurd (cc)
  lower_bound-erase hash g ((h', u) ∷ nodes) n h other =
      ground (arith, lower_bound-erase hash g nodes n)

  lower_bound-erase_none :
      (hash g : ℕ) (nodes : List (ℕ × T))
      → first (lower_bound hash nodes) ≡ none
      → first (lower_bound hash (erase g nodes)) ≡ none
  unfolding lower_bound erase
  lower_bound-erase_none hash g [] h = refl
  lower_bound-erase_none hash g ((h', u) ∷ nodes) h =
      ground (arith, lower_bound-erase_none hash g nodes)

  first-erase :
      (g : ℕ) (nodes : List (ℕ × T)) (n : ℕ × T)
      → first nodes ≡ some n
      → n.0 ≢ g
      → first (erase g nodes) ≡ some n
  unfolding erase
  first-erase g [] n h other = absurd (cc)
  first-erase g ((h', u) ∷ nodes) n h other = ground arith

  -- A look-up that did not stop at the erased hash stops where it stopped before.
  pub owner-erase :
      (hash g : ℕ) (nodes : List (ℕ × T)) (n : ℕ × T)
      → owner hash nodes ≡ some n
      → n.0 ≢ g
      → owner hash (erase g nodes) ≡ some n
  unfolding find
  owner-erase hash g nodes n h other = ground (
    arith,
    lower_bound-erase hash g nodes n,
    lower_bound-erase_none hash g nodes,
    first-erase g nodes n,
    first-wrap nodes (lower_bound hash nodes),
    first-wrap (erase g nodes) (lower_bound hash (erase g nodes)),
  )
