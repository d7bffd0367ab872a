-- ===== src/Lattice/Converge.antt =====
-- Replicas that receive the same updates agree, whatever the order and the number of deliveries.
use mathlib.Core.List.{Memᴰ}
use anna.Prelude.{◌≡◌, refl, sym, ◌∙◌, ap, List, [], ◌∷◌, All, map}
use anna.Lattice.{Lattice}

-- The join alone: a commutative, associative and idempotent operation on views.
module _ {ℓ} {V : Type ℓ} (join : V → V → V) where
  pub joins : V → List V → V
  joins v [] = v
  joins v (x ∷ xs) = joins (join v x) xs

  -- Every element of the first list stands in the second.
  abbrev pub IsWithin : List V → List V → Type ℓ
  IsWithin xs ys = All (λ x. Memᴰ x ys) xs

  module _ (comm : (u v : V) → join u v ≡ join v u)
      (assoc : (u v w : V) → join (join u v) w ≡ join u (join v w))
      (idem : (u : V) → join u u ≡ u) where
    join_right_comm : (u v w : V) → join (join u v) w ≡ join (join u w) v
    join_right_comm u v w = assoc u v w ∙ ap (join u) (comm v w) ∙ sym (assoc u w v)

    joins-join : (v x : V) (xs : List V) → joins (join v x) xs ≡ join (joins v xs) x
    unfolding joins
    joins-join v x [] = refl
    joins-join v x (y ∷ xs) =
        ap (λ u. joins u xs) (join_right_comm v x y) ∙ joins-join (join v y) x xs

    absorb : (v x : V) (xs : List V) → Memᴰ x xs → join (joins v xs) x ≡ joins v xs
    unfolding joins
    absorb v x [] m = elim m [ ]
    absorb v x (y ∷ xs) (Memᴰ.head e) =
        ap (join (joins (join v y) xs)) e
        ∙ ap (λ u. join u y) (joins-join v y xs)
        ∙ assoc (joins v xs) y y
        ∙ ap (join (joins v xs)) (idem y)
        ∙ sym (joins-join v y xs)
    absorb v x (y ∷ xs) (Memᴰ.tail m) = absorb (join v y) x xs m

    absorb_all : (v : V) (ys xs : List V) → IsWithin xs ys → joins (joins v ys) xs ≡ joins v ys
    unfolding joins
    absorb_all v ys [] h = refl
    absorb_all v ys (x ∷ xs) h = ap (λ u. joins u xs) (absorb v x ys h.0) ∙ absorb_all v ys xs h.1

    joins_swap : (v : V) (xs ys : List V) → joins (joins v xs) ys ≡ joins (joins v ys) xs
    unfolding joins
    joins_swap v [] ys = refl
    joins_swap v (x ∷ xs) ys =
        joins_swap (join v x) xs ys ∙ ap (λ u. joins u xs) (joins-join v x ys)

    pub joins_eq :
        (v : V) (xs ys : List V) → IsWithin xs ys → IsWithin ys xs → joins v xs ≡ joins v ys
    joins_eq v xs ys h k = sym (absorb_all v xs ys k) ∙ joins_swap v xs ys ∙ absorb_all v ys xs h

module _ {ℓ} {A : Type ℓ} (L : Lattice A) where
  -- A replica that merges the updates in the order of the list.
  unfoldable pub deliver : A → List A → A
  deliver a [] = a
  deliver a (x ∷ xs) = deliver (L.merge a x) xs

  view-deliver :
      (a : A) (xs : List A)
      → L.IsValid a
      → All L.IsValid xs
      → L.view (deliver a xs) ≡ joins L.join (L.view a) (map L.view xs)
  unfolding deliver joins
  view-deliver a [] v vs = refl
  view-deliver a (x ∷ xs) v vs =
      view-deliver (L.merge a x) xs (L.merge-IsValid a x v vs.0) vs.1
      ∙ ap (λ u. joins L.join u (map L.view xs)) (L.view-merge a x v vs.0)

  -- Two replicas that start from the same valid element and receive valid updates end with the same
  -- view, if what each of the two received was received, in some order and at least once, by the
  -- other.
  pub deliver_convergent :
      (a : A) (xs ys : List A)
      → L.IsValid a
      → All L.IsValid xs
      → All L.IsValid ys
      → IsWithin L.join (map L.view xs) (map L.view ys)
      → IsWithin L.join (map L.view ys) (map L.view xs)
      → L.view (deliver a xs) ≡ L.view (deliver a ys)
  deliver_convergent a xs ys v vx vy h k =
      view-deliver a xs v vx
      ∙ joins_eq L.join L.join_comm L.join_assoc L.join_idem (L.view a) (map L.view xs)
          (map L.view ys) h k
      ∙ sym (view-deliver a ys v vy)
