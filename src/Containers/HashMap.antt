-- ===== src/Containers/HashMap.antt =====
-- `map` and `hmap` of common/include/types.hpp (std::unordered_map), as an association list. The
-- order in which C++ visits the entries is not specified; a new key is put at the end here, and
-- what the development proves about a loop over a map is stated on look-ups.
use anna.Prelude.{
  Eq, ◌==◌, ==_refl, ◌≡◌, refl, Bool, true, false, Option, none, some, List, [], ◌∷◌, arith,
  if◌then◌else◌, Bool-cases, inl, inr,
}

abbrev pub HashMap {ℓ} : Type ℓ → Type ℓ → Type ℓ
HashMap K V = List (K × V)

abbrev pub is_some {ℓ} : {A : Type ℓ} → Option A → Bool
is_some none = false
is_some (some _) = true

abbrev pub value_or {ℓ} : {A : Type ℓ} → Option A → A → A
value_or none d = d
value_or (some a) d = a

module _ {ℓ} {K V : Type ℓ} ⦃e : Eq K⦄ where
  -- `m.find(k)`; `none` is `m.end()`
  unfoldable pub find : K → HashMap K V → Option V
  find k [] = none
  find k ((j, v) ∷ m) = if j == k then some v else find k m

  -- `m[k] = v`
  unfoldable pub assign : K → V → HashMap K V → HashMap K V
  assign k v [] = (k, v) ∷ []
  assign k v ((j, w) ∷ m) = if j == k then (j, v) ∷ m else (j, w) ∷ assign k v m

  -- `m.erase(k)`
  unfoldable pub erase : K → HashMap K V → HashMap K V
  erase k [] = []
  erase k ((j, w) ∷ m) = if j == k then m else (j, w) ∷ erase k m

  -- `m.find(k) != m.end()`
  abbrev pub contains : K → HashMap K V → Bool
  contains k m = is_some (find k m)

  -- The value that `m[k]` reads, where `d` is what a new entry holds.
  abbrev pub at : V → K → HashMap K V → V
  at d k m = value_or (find k m) d

  -- No key stands twice, which std::unordered_map maintains.
  abbrev pub Distinct : HashMap K V → Type 0
  Distinct [] = Unit
  Distinct ((k, v) ∷ m) = (contains k m ≡ false) × Distinct m

  pub find-assign :
      (k j : K) (v : V) (m : HashMap K V)
      → find j (assign k v m) ≡ (if k == j then some v else find j m)
  unfolding find assign
  find-assign k j v [] = refl
  find-assign k j v ((i, w) ∷ m) =
      ground (arith, e.beq_iff k j, e.beq_iff i k, e.beq_iff i j, find-assign k j v m)

  pub find-assign_self : (k : K) (v : V) (m : HashMap K V) → find k (assign k v m) ≡ some v
  find-assign_self k v m = ground (arith, find-assign k k v m, ==_refl k)

  pub find-erase :
      (k j : K) (m : HashMap K V)
      → Distinct m
      → find j (erase k m) ≡ (if k == j then none else find j m)
  unfolding find erase
  find-erase k j [] d = ground arith
  find-erase k j ((i, w) ∷ m) d =
      ground (arith, e.beq_iff k j, e.beq_iff i k, e.beq_iff i j, find-erase k j m d.1)

  pub assign-Distinct : (k : K) (v : V) (m : HashMap K V) → Distinct m → Distinct (assign k v m)
  unfolding find assign
  assign-Distinct k v [] d = (refl, tt)
  assign-Distinct k v ((i, w) ∷ m) d = elim (Bool-cases (i == k)) [
    | inl same ↦ rw same d
    | inr other ↦ rw other (
      ground (arith, find-assign k i v m, e.beq_iff k i, e.beq_iff i k),
      assign-Distinct k v m d.1,
    )
  ]

  pub erase-Distinct : (k : K) (m : HashMap K V) → Distinct m → Distinct (erase k m)
  unfolding erase
  erase-Distinct k [] d = tt
  erase-Distinct k ((i, w) ∷ m) d = elim (Bool-cases (i == k)) [
    | inl same ↦ rw same d.1
    | inr other ↦ rw other (ground (arith, find-erase k i m d.1), erase-Distinct k m d.1)
  ]
