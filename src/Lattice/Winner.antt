-- ===== src/Lattice/Winner.antt =====
-- A merge that keeps one of its two arguments, the better by some preorder: what LWWPairLattice and
-- PriorityLattice (common/include/lattices) have in common.
use mathlib.Core.List.{Memᴰ}
use anna.Prelude.{◌≡◌, refl, ◌⊎◌, inl, inr, List, [], ◌∷◌, All}

module _ {ℓ} {A : Type ℓ} where
  pub All-Memᴰ : (P : A → Type 0) {x : A} (xs : List A) → All P xs → Memᴰ x xs → P x
  All-Memᴰ P [] h m = elim m [ ]
  All-Memᴰ P (y ∷ xs) h (Memᴰ.head e) = rw e h.0
  All-Memᴰ P (y ∷ xs) h (Memᴰ.tail m) = All-Memᴰ P xs h.1 m

  Memᴰ-IsWithin : {x : A} (xs ys : List A) → All (λ y. Memᴰ y ys) xs → Memᴰ x xs → Memᴰ x ys
  Memᴰ-IsWithin [] ys h m = elim m [ ]
  Memᴰ-IsWithin (y ∷ xs) ys h (Memᴰ.head e) = rw e h.0
  Memᴰ-IsWithin (y ∷ xs) ys h (Memᴰ.tail m) = Memᴰ-IsWithin xs ys h.1 m

  -- The element after merging the updates in the order of the list.
  pub deliver : (A → A → A) → A → List A → A
  deliver merge a [] = a
  deliver merge a (x ∷ xs) = deliver merge (merge a x) xs

-- `AtMost a b`: `b` is at least as good as `a`.
pub record IsChoice {ℓ} {A : Type ℓ} (merge : A → A → A) (AtMost : A → A → Type 0) : Type ℓ where
  pub one : (a x : A) → (merge a x ≡ a) ⊎ (merge a x ≡ x)
  pub left : (a x : A) → AtMost a (merge a x)
  pub right : (a x : A) → AtMost x (merge a x)
  pub at_most_refl : (a : A) → AtMost a a
  pub at_most_trans : (a b c : A) → AtMost a b → AtMost b c → AtMost a c

module _ {ℓ} {A : Type ℓ} {AtMost : A → A → Type 0} (merge : A → A → A)
    (choice : IsChoice merge AtMost) where
  start-AtMost : (a : A) (xs : List A) → AtMost a (deliver merge a xs)
  unfolding deliver
  start-AtMost a [] = choice.at_most_refl a
  start-AtMost a (x ∷ xs) =
      choice.at_most_trans a (merge a x) _ (choice.left a x) (start-AtMost (merge a x) xs)

  -- The winner is at least as good as every update that was merged.
  pub deliver_best : (a : A) (xs : List A) → All (λ x. AtMost x (deliver merge a xs)) xs
  unfolding deliver
  deliver_best a [] = tt
  deliver_best a (x ∷ xs) = (
    choice.at_most_trans x (merge a x) _ (choice.right a x) (start-AtMost (merge a x) xs),
    deliver_best (merge a x) xs,
  )

  -- The winner is the initial element or one of the updates.
  pub deliver-Memᴰ : (a : A) (xs : List A) → Memᴰ (deliver merge a xs) (a ∷ xs)
  unfolding deliver
  deliver-Memᴰ a [] = Memᴰ.head refl
  deliver-Memᴰ a (x ∷ xs) = place (choice.one a x) (deliver-Memᴰ (merge a x) xs)
    where
      place :
          {w : A}
          → (merge a x ≡ a) ⊎ (merge a x ≡ x)
          → Memᴰ w (merge a x ∷ xs)
          → Memᴰ w (a ∷ x ∷ xs)
      place (inl e) (Memᴰ.head h) = Memᴰ.head (rw (← e) h)
      place (inr e) (Memᴰ.head h) = Memᴰ.tail (Memᴰ.head (rw (← e) h))
      place c (Memᴰ.tail m) = Memᴰ.tail (Memᴰ.tail m)

  -- Replicas that start from one element and merge the same updates agree, if no two different ones
  -- among them are equally good.
  pub deliver_agree :
      (a : A) (xs ys : List A)
      → ((x y : A) → Memᴰ x (a ∷ xs) → Memᴰ y (a ∷ xs) → AtMost x y → AtMost y x → x ≡ y)
      → All (λ x. Memᴰ x ys) xs
      → All (λ y. Memᴰ y xs) ys
      → deliver merge a xs ≡ deliver merge a ys
  deliver_agree a xs ys coherent h k =
      let won = deliver-Memᴰ a xs in
      let won' = deliver-Memᴰ a ys in
      let back : All (λ y. Memᴰ y (a ∷ xs)) (a ∷ ys) = (Memᴰ.head refl, shift xs ys k) in
      let forth : All (λ x. Memᴰ x (a ∷ ys)) (a ∷ xs) = (Memᴰ.head refl, shift ys xs h) in
      coherent _ _ won (Memᴰ-IsWithin (a ∷ ys) (a ∷ xs) back won')
        (All-Memᴰ (λ x. AtMost x (deliver merge a ys)) (a ∷ ys)
          (start-AtMost a ys, deliver_best a ys) (Memᴰ-IsWithin (a ∷ xs) (a ∷ ys) forth won))
        (All-Memᴰ (λ x. AtMost x (deliver merge a xs)) (a ∷ xs)
          (start-AtMost a xs, deliver_best a xs) (Memᴰ-IsWithin (a ∷ ys) (a ∷ xs) back won'))
    where
      shift : (zs us : List A) → All (λ y. Memᴰ y zs) us → All (λ y. Memᴰ y (a ∷ zs)) us
      shift zs [] m = tt
      shift zs (u ∷ us) m = (Memᴰ.tail m.0, shift zs us m.1)
