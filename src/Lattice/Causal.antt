-- ===== src/Lattice/Causal.antt =====
-- SingleKeyCausalLattice and MultiKeyCausalLattice of common/include/lattices: a value under a
-- vector clock (`MapLattice<string, MaxLattice<unsigned>>`).
use anna.Prelude.{
  ℕ, ◌≤◌, max, Eq, ◌≡◌, refl, ap, ◌↔◌, inl, inr, Bool, true, false, not, Option, none, some, arith,
  if◌then◌else◌, Option-cases, nat_eq,
}
use anna.Containers.HashMap
use anna.Containers.HashMap.{HashMap, Distinct}
use anna.Containers.MapEquality.{map_beq, map_beq_iff}
use anna.Lattice.Max.{merge_max, merge_max-max, IsUnsigned}
use anna.Lattice.MapLattice.{
  merge_map, find-merge_map, merge_map-Distinct, join_option, AllValues, find-AllValues,
}

abbrev pub VectorClock : Type 0 → Type 0
VectorClock K = HashMap K ℕ

pub record VectorClockValuePair (K T : Type 0) : Type 0 where
  pub vector_clock : VectorClock K
  pub value : T

pub record MultiKeyCausalPayload (K T : Type 0) : Type 0 where
  pub vector_clock : VectorClock K
  pub dependencies : HashMap K (VectorClock K)
  pub value : T

module _ {K T : Type 0} ⦃e : Eq K⦄ (merge : T → T → T) where
  -- SingleKeyCausalLattice::do_merge; `merge` is that of the value
  unfoldable pub merge_single :
      VectorClockValuePair K T → VectorClockValuePair K T → VectorClockValuePair K T
  merge_single element p =
      let prev = element.vector_clock in
      let clock = merge_map merge_max element.vector_clock p.vector_clock in
      if map_beq clock p.vector_clock
      then record { vector_clock = clock; value = p.value }
      else if not (map_beq clock prev)
      then record { vector_clock = clock; value = merge element.value p.value }
      else record { vector_clock = clock; value = element.value }

  -- MultiKeyCausalLattice::do_merge
  unfoldable pub merge_multi :
      MultiKeyCausalPayload K T → MultiKeyCausalPayload K T → MultiKeyCausalPayload K T
  merge_multi element p =
      let prev = element.vector_clock in
      let clock = merge_map merge_max element.vector_clock p.vector_clock in
      if map_beq clock p.vector_clock
      then record { vector_clock = clock; dependencies = p.dependencies; value = p.value }
      else if not (map_beq clock prev)
      then record {
        vector_clock = clock;
        dependencies = merge_map (merge_map merge_max) element.dependencies p.dependencies;
        value = merge element.value p.value;
      }
      else record {
        vector_clock = clock;
        dependencies = element.dependencies;
        value = element.value;
      }

join_option-max :
    (a b : Option ℕ)
    → ((n : ℕ) → a ≡ some n → IsUnsigned n)
    → join_option merge_max a b ≡ join_option max a b
join_option-max none b h = refl
join_option-max (some n) none h = refl
join_option-max (some n) (some m) h = ap some (merge_max-max n m (h n refl))

module _ {K : Type 0} ⦃e : Eq K⦄ where
  -- The clock is one that the program can hold: distinct keys, 32-bit counters.
  abbrev pub IsClock : VectorClock K → Type 0
  IsClock c = Distinct c × AllValues IsUnsigned c

  -- `d` has every entry of `c`, with a counter at least as great.
  abbrev pub IsBefore : VectorClock K → VectorClock K → Type 0
  IsBefore c d =
      (k : K) (n : ℕ) → HashMap.find k c ≡ some n → (m : ℕ) × (HashMap.find k d ≡ some m) × (n ≤ m)

  module _ (c d : VectorClock K) (vc : IsClock c) (vd : IsClock d) where
    -- The merged clock holds, under each key, the greater of the two counters.
    pub find-merge_clock :
        (k : K)
        → HashMap.find k (merge_map merge_max c d)
          ≡ join_option max (HashMap.find k c) (HashMap.find k d)
    find-merge_clock k = rw (find-merge_map merge_max k c d vd.0) (
        join_option-max (HashMap.find k c) (HashMap.find k d)
          (λ n found. find-AllValues IsUnsigned k c n found vc.1))

    clock-Distinct : Distinct (merge_map merge_max c d)
    clock-Distinct = merge_map-Distinct merge_max c d vc.0

    join_at :
        (k : K)
        → ((n : ℕ) → HashMap.find k c ≡ some n → (m : ℕ) × (HashMap.find k d ≡ some m) × (n ≤ m))
        → HashMap.find k (merge_map merge_max c d) ≡ HashMap.find k d
    join_at k h = elim (Option-cases (HashMap.find k c)) [
      | inl gone ↦ ground (arith, find-merge_clock k)
      | inr (n, found) ↦ ground (arith, find-merge_clock k, h n found)
    ]

    -- The comparison with the incoming clock decides whether it covers the clock of the element.
    equal_right : (map_beq (merge_map merge_max c d) d ≡ true) ↔ IsBefore c d
    equal_right = (
      λ same k n found.
          let at_k = (map_beq_iff (merge_map merge_max c d) d clock-Distinct vd.0).0 same k in
          elim (Option-cases (HashMap.find k d)) [
            | inl gone ↦ absurd (ground (arith, at_k, find-merge_clock k))
            | inr (m, there) ↦ (m, there, ground (arith, at_k, find-merge_clock k))
          ],
      λ before.
          (map_beq_iff (merge_map merge_max c d) d clock-Distinct vd.0).1
            (λ k. join_at k (before k)),
    )

    -- The comparison with the previous clock decides whether that covers the incoming one.
    equal_left : (map_beq (merge_map merge_max c d) c ≡ true) ↔ IsBefore d c
    equal_left = (
      λ same k n found.
          let at_k = (map_beq_iff (merge_map merge_max c d) c clock-Distinct vc.0).0 same k in
          elim (Option-cases (HashMap.find k c)) [
            | inl gone ↦ absurd (ground (arith, at_k, find-merge_clock k))
            | inr (m, there) ↦ (m, there, ground (arith, at_k, find-merge_clock k))
          ],
      λ before. (map_beq_iff (merge_map merge_max c d) c clock-Distinct vc.0).1 (λ k.
          elim (Option-cases (HashMap.find k d)) [
            | inl gone ↦ ground (arith, find-merge_clock k)
            | inr (n, found) ↦ ground (arith, find-merge_clock k, before k n found)
          ]),
    )

module _ {K T : Type 0} ⦃e : Eq K⦄ (merge : T → T → T) (a b : VectorClockValuePair K T) where
  -- What a merge does with the value: an incoming version that covers the element's replaces it, an
  -- incoming version that the element covers, and which does not cover it, is dropped, and two
  -- concurrent versions are merged. The clock becomes the pointwise maximum. The two clocks have distinct
  -- keys and 32-bit counters.
  pub merge_single_cases :
      IsClock a.vector_clock
      → IsClock b.vector_clock
      → ((k : K)
          → HashMap.find k (merge_single merge a b).vector_clock
            ≡ join_option max (HashMap.find k a.vector_clock) (HashMap.find k b.vector_clock))
        × (IsBefore a.vector_clock b.vector_clock → (merge_single merge a b).value ≡ b.value)
        × (IsBefore b.vector_clock a.vector_clock
            → ¬ (IsBefore a.vector_clock b.vector_clock)
            → (merge_single merge a b).value ≡ a.value)
        × (¬ (IsBefore b.vector_clock a.vector_clock)
            → ¬ (IsBefore a.vector_clock b.vector_clock)
            → (merge_single merge a b).value ≡ merge a.value b.value)
  unfolding merge_single
  merge_single_cases va vb =
      let right = equal_right a.vector_clock b.vector_clock va vb in
      let left = equal_left a.vector_clock b.vector_clock va vb in
      (
        λ k. ground (arith, find-merge_clock a.vector_clock b.vector_clock va vb k),
        λ before. rw (right.1 before),
        λ after not_before. rw (Bool-false _ (λ h. not_before (right.0 h)), left.1 after),
        λ not_after not_before.
            rw (
              Bool-false _ (λ h. not_before (right.0 h)),
              Bool-false _ (λ h. not_after (left.0 h)),
            ),
      )
    where
      Bool-false : (x : Bool) → ¬ (x ≡ true) → x ≡ false
      Bool-false true h = absurd (h refl)
      Bool-false false h = refl

module _ {K T : Type 0} ⦃e : Eq K⦄ (merge : T → T → T) where
  -- The dependencies and the value of a payload, as one value.
  abbrev pub as_pair :
      MultiKeyCausalPayload K T → VectorClockValuePair K (HashMap K (VectorClock K) × T)
  as_pair p = record { vector_clock = p.vector_clock; value = (p.dependencies, p.value) }

  abbrev pub merge_pair :
      HashMap K (VectorClock K) × T → HashMap K (VectorClock K) × T → HashMap K (VectorClock K) × T
  merge_pair (d, v) (d', v') = (merge_map (merge_map merge_max) d d', merge v v')

  -- The multi-key lattice is the single-key lattice over the pair of dependencies and value.
  pub merge_multi-merge_single :
      (a b : MultiKeyCausalPayload K T)
      → as_pair (merge_multi merge a b) ≡ merge_single merge_pair (as_pair a) (as_pair b)
  unfolding merge_multi merge_single
  merge_multi-merge_single a b = ground arith
