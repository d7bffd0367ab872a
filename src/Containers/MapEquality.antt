-- ===== src/Containers/MapEquality.antt =====
-- `operator==` of std::unordered_map, which SingleKeyCausalLattice and MultiKeyCausalLattice apply to
-- vector clocks through `operator==` of common/include/lattices/lattice.hpp.
use anna.Prelude.{
  ◌+◌, Eq, ◌==◌, ◌≡◌, refl, ◌↔◌, Bool, true, false, ◌&&◌, Option, none, some, [], ◌∷◌, arith,
  length, nat_beq,
}
use anna.Containers.HashMap
use anna.Containers.HashMap.{HashMap, Distinct}

module _ {ℓ} {V : Type ℓ} ⦃f : Eq V⦄ where
  -- The entry was found, and holds this value.
  abbrev holds : V → Option V → Bool
  holds v none = false
  holds v (some w) = v == w

  holds-eq_some : (v : V) (o : Option V) → holds v o ≡ true → o ≡ some v
  holds-eq_some v none h = absurd (cc)
  holds-eq_some v (some w) h = ground (arith, f.beq_iff v w)

module _ {ℓ} {K V : Type ℓ} ⦃e : Eq K⦄ ⦃f : Eq V⦄ where
  -- Every entry of the first map stands in the second.
  entries_in : HashMap K V → HashMap K V → Bool
  entries_in [] n = true
  entries_in ((k, v) ∷ m) n = holds v (HashMap.find k n) && entries_in m n

  -- `operator==` of std::unordered_map: as many entries, and each of them in the other map.
  unfoldable pub map_beq : HashMap K V → HashMap K V → Bool
  unfolding entries_in
  map_beq m n = nat_beq (length m) (length n) && entries_in m n

  abbrev pub SameMap : HashMap K V → HashMap K V → Type ℓ
  SameMap m n = (k : K) → HashMap.find k m ≡ HashMap.find k n

  length-erase :
      (k : K) (n : HashMap K V) (v : V)
      → HashMap.find k n ≡ some v
      → length (HashMap.erase k n) + 1 ≡ length n
  unfolding HashMap.find HashMap.erase
  length-erase k [] v h = absurd (cc)
  length-erase k ((j, w) ∷ n) v h = ground (arith, length-erase k n v)

  -- An entry that does not stand in the map, when its key is erased, stands there as before.
  entries_in-erase :
      (k : K) (m n : HashMap K V)
      → Distinct n
      → HashMap.find k m ≡ none
      → entries_in m (HashMap.erase k n) ≡ entries_in m n
  unfolding HashMap.find entries_in
  entries_in-erase k [] n d h = refl
  entries_in-erase k ((j, v) ∷ m) n d h =
      ground
        (arith, entries_in-erase k m n d, HashMap.find-erase k j n d, e.beq_iff k j, e.beq_iff j k)

  absent : (k : K) (m : HashMap K V) → HashMap.contains k m ≡ false → HashMap.find k m ≡ none
  absent k m h = ground arith

  map_beq_sound : (m n : HashMap K V) → Distinct m → Distinct n → map_beq m n ≡ true → SameMap m n
  unfolding map_beq HashMap.find
  map_beq_sound [] [] dm dn h k = refl
  map_beq_sound [] (y ∷ n) dm dn h k = ground arith
  map_beq_sound ((j, v) ∷ m) n dm dn h k =
      let here : HashMap.find j n ≡ some v = holds-eq_some v (HashMap.find j n) (ground arith) in
      let rest =
        map_beq_sound m (HashMap.erase j n) dm.1 (HashMap.erase-Distinct j n dn)
          (ground (arith, entries_in-erase j m n dn (absent j m dm.0), length-erase j n v here))
          k in
      ground (arith, rest, here, HashMap.find-erase j k n dn, e.beq_iff j k, absent j m dm.0)

  map_beq_complete :
      (m n : HashMap K V) → Distinct m → Distinct n → SameMap m n → map_beq m n ≡ true
  unfolding map_beq HashMap.find
  map_beq_complete [] [] dm dn h = refl
  map_beq_complete [] ((j, w) ∷ n) dm dn h = ground (arith, h j, e.beq_iff j j)
  map_beq_complete ((j, v) ∷ m) n dm dn h =
      let here : HashMap.find j n ≡ some v = ground (arith, h j, e.beq_iff j j) in
      let rest = map_beq_complete m (HashMap.erase j n) dm.1 (HashMap.erase-Distinct j n dn) (λ k.
        ground (arith, h k, here, HashMap.find-erase j k n dn, e.beq_iff j k, absent j m dm.0)) in
      ground (
        arith,
        rest,
        here,
        entries_in-erase j m n dn (absent j m dm.0),
        length-erase j n v here,
        f.beq_iff v v,
      )

  -- The comparison of two maps decides whether they hold the same value under every key.
  pub map_beq_iff :
      (m n : HashMap K V) → Distinct m → Distinct n → (map_beq m n ≡ true) ↔ SameMap m n
  map_beq_iff m n dm dn = (map_beq_sound m n dm dn, map_beq_complete m n dm dn)
