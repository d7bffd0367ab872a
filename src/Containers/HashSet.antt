-- ===== src/Containers/HashSet.antt =====
-- `set` and `ordered_set` of common/include/types.hpp (std::unordered_set, std::set), as a list in
-- which no element stands twice. A new element is put at the end; the order in which C++ visits the
-- elements is not specified, and the abstract view `Members` forgets it.
use anna.Prelude.{
  Eq, ◌==◌, ◌≡◌, refl, Bool, false, List, [], ◌∷◌, ◌++◌, arith, length, if◌then◌else◌, ◌+◌, ◌||◌,
  not, ◌&&◌, Bool-cases, inl, inr,
}

module _ {ℓ} {A : Type ℓ} ⦃e : Eq A⦄ where
  -- `s.find(x) != s.end()`
  unfoldable pub contains : A → List A → Bool
  contains x [] = false
  contains x (y ∷ s) = y == x || contains x s

  -- `s.insert(x)`
  unfoldable pub insert : A → List A → List A
  insert x s = if contains x s then s else s ++ x ∷ []

  -- `s.erase(x)`
  unfoldable pub erase : A → List A → List A
  erase x [] = []
  erase x (y ∷ s) = if y == x then s else y ∷ erase x s

  abbrev pub Distinct : List A → Type 0
  Distinct [] = Unit
  Distinct (x ∷ s) = (contains x s ≡ false) × Distinct s

  pub contains-append :
      (x : A) (s t : List A) → contains x (s ++ t) ≡ (contains x s || contains x t)
  unfolding contains
  contains-append x [] t = refl
  contains-append x (y ∷ s) t = ground (arith, contains-append x s t)

  pub contains-insert : (x y : A) (s : List A) → contains y (insert x s) ≡ (x == y || contains y s)
  unfolding insert contains
  contains-insert x y s = elim (Bool-cases (contains x s)) [
    | inl old ↦ rw old (elim (Bool-cases (x == y)) [
      | inl same ↦ rw same (rw (← (e.beq_iff x y).0 same) old)
      | inr other ↦ rw other refl
    ])
    | inr new ↦ rw new (ground (arith, contains-append y s (x ∷ [])))
  ]

  pub contains-erase :
      (x y : A) (s : List A) → Distinct s → contains y (erase x s) ≡ (not (x == y) && contains y s)
  unfolding erase contains
  contains-erase x y [] d = ground arith
  contains-erase x y (z ∷ s) d =
      ground (arith, e.beq_iff x y, e.beq_iff z x, e.beq_iff z y, contains-erase x y s d.1)

  append-Distinct :
      (x : A) (s : List A) → contains x s ≡ false → Distinct s → Distinct (s ++ x ∷ [])
  unfolding contains
  append-Distinct x [] h d = (refl, tt)
  append-Distinct x (y ∷ s) h d = (
    ground (arith, contains-append y s (x ∷ []), e.beq_iff x y, e.beq_iff y x),
    append-Distinct x s (ground arith) d.1,
  )

  pub insert-Distinct : (x : A) (s : List A) → Distinct s → Distinct (insert x s)
  unfolding insert
  insert-Distinct x s d = elim (Bool-cases (contains x s)) [
    | inl old ↦ rw old d
    | inr new ↦ rw new (append-Distinct x s new d)
  ]

  pub erase-Distinct : (x : A) (s : List A) → Distinct s → Distinct (erase x s)
  unfolding erase
  erase-Distinct x [] d = tt
  erase-Distinct x (y ∷ s) d = elim (Bool-cases (y == x)) [
    | inl same ↦ rw same d.1
    | inr other ↦ rw other (ground (arith, contains-erase x y s d.1), erase-Distinct x s d.1)
  ]

  pub length-insert :
      (x : A) (s : List A) → length (insert x s) ≡ (if contains x s then length s else length s + 1)
  unfolding insert
  length-insert x s = elim (Bool-cases (contains x s)) [
    | inl old ↦ rw old refl
    | inr new ↦ rw new (length-append_one s)
  ]
    where
      length-append_one : (t : List A) → length (t ++ x ∷ []) ≡ length t + 1
      length-append_one [] = omega arith
      length-append_one (y ∷ t) = omega (arith, length-append_one t)

  -- Two sets with the same elements.
  abbrev pub SameSet : List A → List A → Type ℓ
  SameSet s t = (x : A) → contains x s ≡ contains x t
