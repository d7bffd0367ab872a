-- ===== src/Ring/ConsistentHashMap/Successor.antt =====
-- The order of the ring is kept, and `find` returns the clockwise successor of a hash.
use mathlib.Core.List.{Memᴰ}
use mathlib.Core.Path.{subst}
use anna.Prelude.{
  ℕ, ◌<◌, ◌≤◌, ◌≡◌, ◌≢◌, refl, sym, List, [], ◌∷◌, arith, ltb, nat_beq, Bool-cases, inl, inr, All,
  ◌⊎◌,
}
use anna.Ring.ConsistentHashMap.{insert, erase, lower_bound, find, wrap, Above, IsSorted}

module _ {ℓ} {T : Type ℓ} where
  Above-trans : (a b : ℕ) (nodes : List (ℕ × T)) → a < b → Above b nodes → Above a nodes
  Above-trans a b [] h k = tt
  Above-trans a b ((g, t) ∷ nodes) h k = (omega arith, Above-trans a b nodes h k.1)

  insert-Above :
      (a hash : ℕ) (node : T) (nodes : List (ℕ × T))
      → a < hash
      → Above a nodes
      → Above a (insert hash node nodes)
  unfolding insert
  insert-Above a hash node [] h k = (h, tt)
  insert-Above a hash node ((g, t) ∷ nodes) h k = elim (Bool-cases (ltb hash g)) [
    | inl less ↦ rw less (h, k)
    | inr more ↦ rw more (elim (Bool-cases (nat_beq hash g)) [
      | inl same ↦ rw same k
      | inr other ↦ rw other (k.0, insert-Above a hash node nodes h k.1)
    ])
  ]

  -- An insertion keeps the ring in order, without two nodes at one hash.
  pub insert-IsSorted :
      (hash : ℕ) (node : T) (nodes : List (ℕ × T))
      → IsSorted nodes
      → IsSorted (insert hash node nodes)
  unfolding insert
  insert-IsSorted hash node [] s = (tt, tt)
  insert-IsSorted hash node ((g, t) ∷ nodes) s = elim (Bool-cases (ltb hash g)) [
    | inl less ↦ rw less ((ground arith, Above-trans hash g nodes (ground arith) s.0), s)
    | inr more ↦ rw more (elim (Bool-cases (nat_beq hash g)) [
      | inl same ↦ rw same s
      | inr other ↦
          rw other
            (insert-Above g hash node nodes (ground arith) s.0, insert-IsSorted hash node nodes s.1)
    ])
  ]

  erase-Above : (a hash : ℕ) (nodes : List (ℕ × T)) → Above a nodes → Above a (erase hash nodes)
  unfolding erase
  erase-Above a hash [] h = tt
  erase-Above a hash ((g, t) ∷ nodes) h = elim (Bool-cases (nat_beq g hash)) [
    | inl same ↦ rw same h.1
    | inr other ↦ rw other (h.0, erase-Above a hash nodes h.1)
  ]

  pub erase-IsSorted :
      (hash : ℕ) (nodes : List (ℕ × T)) → IsSorted nodes → IsSorted (erase hash nodes)
  unfolding erase
  erase-IsSorted hash [] s = tt
  erase-IsSorted hash ((g, t) ∷ nodes) s = elim (Bool-cases (nat_beq g hash)) [
    | inl same ↦ rw same s.1
    | inr other ↦ rw other (erase-Above g hash nodes s.0, erase-IsSorted hash nodes s.1)
  ]

  -- A node at which a look-up may stop: it is the first from `hash` on, or, where no node is from
  -- `hash` on, the first of all.
  abbrev pub IsSuccessor : ℕ → List (ℕ × T) → ℕ × T → Type ℓ
  IsSuccessor hash nodes n =
      Memᴰ n nodes
      × (((hash ≤ n.0) × All (λ m. (m.0 < hash) ⊎ (n.0 ≤ m.0)) nodes)
          ⊎ (All (λ m. m.0 < hash) nodes × All (λ m. n.0 ≤ m.0) nodes))

  Above-le : (a : ℕ) (nodes : List (ℕ × T)) → Above a nodes → All (λ m. a ≤ m.0) nodes
  Above-le a [] h = tt
  Above-le a ((g, t) ∷ nodes) h = (omega arith, Above-le a nodes h.1)

  lower_bound_past :
      (hash : ℕ) (nodes : List (ℕ × T)) → lower_bound hash nodes ≡ [] → All (λ m. m.0 < hash) nodes
  unfolding lower_bound
  lower_bound_past hash [] h = tt
  lower_bound_past hash ((g, t) ∷ nodes) h = elim (Bool-cases (ltb g hash)) [
    | inl less ↦ (ground arith, lower_bound_past hash nodes (ground arith))
    | inr more ↦ absurd (ground arith)
  ]

  record Bound (hash : ℕ) (nodes : List (ℕ × T)) (n : ℕ × T) : Type ℓ where
    member : Memᴰ n nodes
    reached : hash ≤ n.0
    first : All (λ m. (m.0 < hash) ⊎ (n.0 ≤ m.0)) nodes

  after :
      (hash a : ℕ) (nodes : List (ℕ × T))
      → Above a nodes
      → All (λ m. (m.0 < hash) ⊎ (a ≤ m.0)) nodes
  after hash a [] h = tt
  after hash a ((g, t) ∷ nodes) h = (inr (omega arith), after hash a nodes h.1)

  lower_bound_found :
      (hash : ℕ) (nodes : List (ℕ × T)) (n : ℕ × T) (rest : List (ℕ × T))
      → IsSorted nodes
      → lower_bound hash nodes ≡ n ∷ rest
      → Bound hash nodes n
  unfolding lower_bound
  lower_bound_found hash [] n rest s h = absurd (cc)
  lower_bound_found hash ((g, t) ∷ nodes) n rest s h = elim (Bool-cases (ltb g hash)) [
    | inl less ↦
        let b = lower_bound_found hash nodes n rest s.1 (ground arith) in
        record {
          member = Memᴰ.tail b.member;
          reached = b.reached;
          first = (inl (ground arith), b.first);
        }
    | inr more ↦
        let e : n ≡ (g, t) = ground arith in
        rw e (record {
          member = Memᴰ.head refl;
          reached = ground arith;
          first = (inr (omega arith), after hash g nodes s.0);
        })
  ]

  first_of_all :
      (nodes : List (ℕ × T)) (n : ℕ × T) (rest : List (ℕ × T))
      → IsSorted nodes
      → nodes ≡ n ∷ rest
      → Memᴰ n nodes × All (λ m. n.0 ≤ m.0) nodes
  first_of_all [] n rest s h = absurd (cc)
  first_of_all ((g, t) ∷ nodes) n rest s h =
      let e : n ≡ (g, t) = ground arith in
      subst (λ (m : ℕ × T). Memᴰ m ((g, t) ∷ nodes) × All (λ k. m.0 ≤ k.0) ((g, t) ∷ nodes)) (sym e)
        (Memᴰ.head refl, (omega arith, Above-le g nodes s.0))

  pub find-ne-nil : (hash : ℕ) (x : ℕ × T) (xs : List (ℕ × T)) → find hash (x ∷ xs) ≢ []
  unfolding find
  find-ne-nil hash x xs h = ground arith

  found-IsSuccessor :
      (hash : ℕ) (nodes : List (ℕ × T)) (n : ℕ × T) (rest : List (ℕ × T))
      → IsSorted nodes
      → find hash nodes ≡ n ∷ rest
      → IsSuccessor hash nodes n
  unfolding find
  found-IsSuccessor hash nodes n rest s h = split (lower_bound hash nodes) refl
    where
      split : (l : List (ℕ × T)) → lower_bound hash nodes ≡ l → IsSuccessor hash nodes n
      split [] e =
          let (member, least) = first_of_all nodes n rest s (rw (e, wrap) at h) in
          (member, inr (lower_bound_past hash nodes e, least))
      split (m ∷ r) e =
          let same : m ≡ n = ground arith in
          let b = lower_bound_found hash nodes m r s e in
          rw (← same) (b.member, inl (b.reached, b.first))

  -- On a ring in order that has a node, `find` stops at a node, and that is the successor of the
  -- hash: the least from `hash` on, or the least of all where no node is from `hash` on.
  pub find-IsSuccessor :
      (hash : ℕ) (x : ℕ × T) (xs : List (ℕ × T))
      → IsSorted (x ∷ xs)
      → (n : ℕ × T) × (rest : List (ℕ × T)) × (find hash (x ∷ xs) ≡ n ∷ rest)
        × IsSuccessor hash (x ∷ xs) n
  find-IsSuccessor hash x xs s = stop (find hash (x ∷ xs)) refl
    where
      stop :
          (l : List (ℕ × T))
          → find hash (x ∷ xs) ≡ l
          → (n : ℕ × T) × (rest : List (ℕ × T)) × (find hash (x ∷ xs) ≡ n ∷ rest)
            × IsSuccessor hash (x ∷ xs) n
      stop [] e = absurd (find-ne-nil hash x xs e)
      stop (n ∷ rest) e = (n, rest, e, found-IsSuccessor hash (x ∷ xs) n rest s e)
