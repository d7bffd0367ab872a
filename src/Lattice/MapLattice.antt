-- ===== src/Lattice/MapLattice.antt =====
-- MapLattice of common/include/lattices/core_lattices.hpp, over any value lattice.
use mathlib.Core.Path.{fun_ext}
use mathlib.Core.Option
use anna.Prelude.{
  Eq, ◌==◌, ◌≡◌, refl, ap, ◌∙◌, Option, none, some, [], ◌∷◌, arith, if◌then◌else◌, Bool-cases, inl,
  inr, Option-cases,
}
use anna.Containers.HashMap
use anna.Containers.HashMap.{HashMap, Distinct}
use anna.Lattice.{Lattice}

-- What a merge of two possible entries holds.
abbrev pub join_option {ℓ} : {V : Type ℓ} → (V → V → V) → Option V → Option V → Option V
join_option join none b = b
join_option join (some a) none = some a
join_option join (some a) (some b) = some (join a b)

-- The entry that `insert_pair` leaves: `search->second.merge(v)`, or a copy of `v`.
abbrev pub merged {ℓ} : {V : Type ℓ} → (V → V → V) → Option V → V → V
merged merge (some w) v = merge w v
merged merge none v = v

module _ {ℓ} {V : Type ℓ} (join : V → V → V) where
  join_option_comm :
      ((u v : V) → join u v ≡ join v u)
      → (a b : Option V) → join_option join a b ≡ join_option join b a
  join_option_comm h none none = refl
  join_option_comm h none (some b) = refl
  join_option_comm h (some a) none = refl
  join_option_comm h (some a) (some b) = ap some (h a b)

  join_option_assoc :
      ((u v w : V) → join (join u v) w ≡ join u (join v w))
      → (a b c : Option V)
      → join_option join (join_option join a b) c ≡ join_option join a (join_option join b c)
  join_option_assoc h none b c = refl
  join_option_assoc h (some a) none c = refl
  join_option_assoc h (some a) (some b) none = refl
  join_option_assoc h (some a) (some b) (some c) = ap some (h a b c)

  join_option_idem : ((u : V) → join u u ≡ u) → (a : Option V) → join_option join a a ≡ a
  join_option_idem h none = refl
  join_option_idem h (some a) = ap some (h a)

module _ {ℓ} {K V : Type ℓ} ⦃e : Eq K⦄ (merge : V → V → V) where
  -- `insert_pair`: merge into the entry of the key, or copy the value into a new entry
  unfoldable pub insert_pair : K → V → HashMap K V → HashMap K V
  insert_pair k v element = HashMap.assign k (merged merge (HashMap.find k element) v) element

  -- `do_merge`
  unfoldable pub merge_map : HashMap K V → HashMap K V → HashMap K V
  merge_map element [] = element
  merge_map element ((k, v) ∷ m) = merge_map (insert_pair k v element) m

  pub find-insert_pair :
      (k j : K) (v : V) (m : HashMap K V)
      → HashMap.find j (insert_pair k v m)
        ≡ (if k == j then join_option merge (HashMap.find j m) (some v) else HashMap.find j m)
  unfolding insert_pair
  find-insert_pair k j v m =
      ground (arith, HashMap.find-assign k j (merged merge (HashMap.find k m) v) m, e.beq_iff k j)

  -- A merge of two maps holds, under each key, the merge of what the two hold there, if no
  -- key is repeated in the second.
  pub find-merge_map :
      (j : K) (m n : HashMap K V)
      → Distinct n
      → HashMap.find j (merge_map m n) ≡ join_option merge (HashMap.find j m) (HashMap.find j n)
  unfolding merge_map HashMap.find
  find-merge_map j m [] d = ground arith
  find-merge_map j m ((k, v) ∷ n) d =
      ground
        (arith, find-merge_map j (insert_pair k v m) n d.1, find-insert_pair k j v m, e.beq_iff k j)

  insert_pair-Distinct :
      (k : K) (v : V) (m : HashMap K V) → Distinct m → Distinct (insert_pair k v m)
  unfolding insert_pair
  insert_pair-Distinct k v m d = HashMap.assign-Distinct k _ m d

  pub merge_map-Distinct : (m n : HashMap K V) → Distinct m → Distinct (merge_map m n)
  unfolding merge_map
  merge_map-Distinct m [] d = d
  merge_map-Distinct m ((k, v) ∷ n) d =
      merge_map-Distinct (insert_pair k v m) n (insert_pair-Distinct k v m d)

  -- The keys of the second map that the first has too, with the merged values: `intersect`.
  intersect_into : HashMap K V → HashMap K V → HashMap K V → HashMap K V
  intersect_into element [] res = res
  intersect_into element ((k, v) ∷ m) res = elim (HashMap.find k element) [
    | some w ↦ intersect_into element m (insert_pair k v (insert_pair k w res))
    | none ↦ intersect_into element m res
  ]

  unfoldable pub intersect : HashMap K V → HashMap K V → HashMap K V
  unfolding intersect_into
  intersect element other = intersect_into element other []

-- Every value of the map satisfies the predicate.
abbrev pub AllValues {ℓ} : {K V : Type ℓ} → (V → Type 0) → HashMap K V → Type 0
AllValues P [] = Unit
AllValues P ((k, v) ∷ m) = P v × AllValues P m

module _ {ℓ} {K V : Type ℓ} ⦃e : Eq K⦄ (P : V → Type 0) where
  assign-AllValues :
      (k : K) (v : V) (m : HashMap K V) → P v → AllValues P m → AllValues P (HashMap.assign k v m)
  unfolding HashMap.assign
  assign-AllValues k v [] p h = (p, tt)
  assign-AllValues k v ((j, w) ∷ m) p h = elim (Bool-cases (j == k)) [
    | inl same ↦ rw same (p, h.1)
    | inr other ↦ rw other (h.0, assign-AllValues k v m p h.1)
  ]

  pub find-AllValues :
      (k : K) (m : HashMap K V) (v : V) → HashMap.find k m ≡ some v → AllValues P m → P v
  unfolding HashMap.find
  find-AllValues k [] v eq h = absurd (cc)
  find-AllValues k ((j, w) ∷ m) v eq h = elim (Bool-cases (j == k)) [
    | inl same ↦ let e' : w ≡ v = ground arith in rw (← e') h.0
    | inr other ↦ find-AllValues k m v (ground arith) h.1
  ]

  insert_pair-AllValues :
      (merge : V → V → V)
      → ((a b : V) → P a → P b → P (merge a b))
      → (k : K) (v : V) (m : HashMap K V) → P v
      → AllValues P m
      → AllValues P (insert_pair merge k v m)
  unfolding insert_pair
  insert_pair-AllValues merge keep k v m p h =
      assign-AllValues k _ m
        (elim (Option-cases (HashMap.find k m)) [
          | inl absent ↦ rw absent p
          | inr (w, found) ↦ rw found (keep w v (find-AllValues k m w found h) p)
        ])
        h

  pub merge_map-AllValues :
      (merge : V → V → V)
      → ((a b : V) → P a → P b → P (merge a b))
      → (m n : HashMap K V) → AllValues P m
      → AllValues P n
      → AllValues P (merge_map merge m n)
  unfolding merge_map
  merge_map-AllValues merge keep m [] h k = h
  merge_map-AllValues merge keep m ((j, v) ∷ n) h k =
      merge_map-AllValues merge keep (insert_pair merge j v m) n
        (insert_pair-AllValues merge keep j v m k.0 h) k.1

module _ {ℓ} {V : Type ℓ} (L : Lattice V) where
  view-join_option :
      (a b : Option V)
      → ((v : V) → a ≡ some v → L.IsValid v)
      → ((v : V) → b ≡ some v → L.IsValid v)
      → Option.map L.view (join_option L.merge a b)
        ≡ join_option L.join (Option.map L.view a) (Option.map L.view b)
  view-join_option none b h k = refl
  view-join_option (some a) none h k = refl
  view-join_option (some a) (some b) h k = ap some (L.view-merge a b (h a refl) (k b refl))

module _ {ℓ} {K V : Type ℓ} ⦃e : Eq K⦄ (L : Lattice V) where
  abbrev pub map_view : HashMap K V → K → Option L.View
  map_view m k = Option.map L.view (HashMap.find k m)

  -- A map over a lattice is a lattice: the merge is pointwise, and an absent key is the bottom.
  pub map_lattice : Lattice (HashMap K V)
  unfolding HashMap.find
  map_lattice = record {
    View = K → Option L.View;
    view = map_view;
    join = λ u v k. join_option L.join (u k) (v k);
    IsValid = λ m. Distinct m × AllValues L.IsValid m;
    bot = [];
    merge = merge_map L.merge;
    join_comm = λ u v. fun_ext λ k. join_option_comm L.join L.join_comm (u k) (v k);
    join_assoc = λ u v w. fun_ext λ k. join_option_assoc L.join L.join_assoc (u k) (v k) (w k);
    join_idem = λ u. fun_ext λ k. join_option_idem L.join L.join_idem (u k);
    join-bot = λ u. refl;
    bot-IsValid = (tt, tt);
    merge-IsValid = λ a b h k. (
      merge_map-Distinct L.merge a b h.0,
      merge_map-AllValues L.IsValid L.merge L.merge-IsValid a b h.1 k.1,
    );
    view-merge = λ a b h k. fun_ext λ j.
        ap (Option.map L.view) (find-merge_map L.merge j a b k.0)
        ∙ view-join_option L (HashMap.find j a) (HashMap.find j b)
            (λ v found. find-AllValues L.IsValid j a v found h.1)
            (λ v found. find-AllValues L.IsValid j b v found k.1);
  }
