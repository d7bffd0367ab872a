-- ===== src/Lattice/Set.antt =====
-- SetLattice and OrderedSetLattice of common/include/lattices/core_lattices.hpp. The two classes
-- have the same text over std::unordered_set and std::set, and one model serves both.
use mathlib.Core.Path.{fun_ext}
use anna.Prelude.{
  Eq, ◌==◌, ◌≡◌, refl, ◌∙◌, Bool, ◌||◌, ◌&&◌, ℕ, ◌≤◌, List, [], ◌∷◌, arith, length, if◌then◌else◌,
  or_comm, or_assoc, or_idem,
}
use anna.Containers.HashSet
use anna.Containers.HashSet.{Distinct}
use anna.Lattice.{Lattice}

module _ {ℓ} {T : Type ℓ} ⦃e : Eq T⦄ where
  -- `for (const T &elem : e) this->element.insert(elem);`
  unfoldable pub merge_set : List T → List T → List T
  merge_set element [] = element
  merge_set element (elem ∷ rest) = merge_set (HashSet.insert elem element) rest

  unfoldable pub size : List T → ℕ
  size element = length element

  -- The inner loop of `intersect`, over the elements of this set.
  unfoldable pub intersect_one : T → List T → List T → List T
  intersect_one that_elem [] res = res
  intersect_one that_elem (this_elem ∷ rest) res =
      intersect_one that_elem rest
        (if this_elem == that_elem then HashSet.insert this_elem res else res)

  unfoldable pub intersect_all : List T → List T → List T → List T
  intersect_all element [] res = res
  intersect_all element (that_elem ∷ rest) res =
      intersect_all element rest (intersect_one that_elem element res)

  unfoldable pub intersect : List T → List T → List T
  unfolding intersect_one intersect_all
  intersect element s = intersect_all element s []

  project_into : (T → Bool) → List T → List T → List T
  project_into f [] res = res
  project_into f (elem ∷ rest) res =
      project_into f rest (if f elem then HashSet.insert elem res else res)

  unfoldable pub project : (T → Bool) → List T → List T
  unfolding project_into
  project f element = project_into f element []

  pub contains-merge_set :
      (x : T) (s t : List T)
      → HashSet.contains x (merge_set s t) ≡ (HashSet.contains x s || HashSet.contains x t)
  unfolding merge_set HashSet.contains
  contains-merge_set x s [] = ground arith
  contains-merge_set x s (y ∷ t) =
      ground (arith, contains-merge_set x (HashSet.insert y s) t, HashSet.contains-insert y x s)

  pub merge_set-Distinct : (s t : List T) → Distinct s → Distinct (merge_set s t)
  unfolding merge_set
  merge_set-Distinct s [] d = d
  merge_set-Distinct s (y ∷ t) d =
      merge_set-Distinct (HashSet.insert y s) t (HashSet.insert-Distinct y s d)

  -- A merge never loses an element: the size does not fall.
  pub size-le-merge_set : (s t : List T) → size s ≤ size (merge_set s t)
  unfolding merge_set size
  size-le-merge_set s [] = omega arith
  size-le-merge_set s (y ∷ t) =
      ground (arith, size-le-merge_set (HashSet.insert y s) t, HashSet.length-insert y s)

  contains-intersect_one :
      (x y : T) (s res : List T)
      → HashSet.contains x (intersect_one y s res)
        ≡ (HashSet.contains x res || (y == x && HashSet.contains x s))
  unfolding intersect_one HashSet.contains
  contains-intersect_one x y [] res = ground arith
  contains-intersect_one x y (z ∷ s) res = ground (
    arith,
    contains-intersect_one x y s res,
    contains-intersect_one x y s (HashSet.insert z res),
    HashSet.contains-insert z x res,
    e.beq_iff z x,
    e.beq_iff y x,
    e.beq_iff z y,
  )

  contains-intersect_all :
      (x : T) (s t res : List T)
      → HashSet.contains x (intersect_all s t res)
        ≡ (HashSet.contains x res || (HashSet.contains x t && HashSet.contains x s))
  unfolding intersect_all HashSet.contains
  contains-intersect_all x s [] res = ground arith
  contains-intersect_all x s (y ∷ t) res = ground (
    arith,
    contains-intersect_all x s t (intersect_one y s res),
    contains-intersect_one x y s res,
  )

  -- The nested loops of `intersect` keep exactly the elements that both sets have.
  pub contains-intersect :
      (x : T) (s t : List T)
      → HashSet.contains x (intersect s t) ≡ (HashSet.contains x s && HashSet.contains x t)
  unfolding intersect HashSet.contains
  contains-intersect x s t = contains-intersect_all x s t [] ∙ ground arith

  -- The union as an abstract operation on membership.
  abbrev pub union : (T → Bool) → (T → Bool) → T → Bool
  union u v x = u x || v x

  pub set_lattice : Lattice (List T)
  unfolding HashSet.contains
  set_lattice = record {
    View = T → Bool;
    view = λ s x. HashSet.contains x s;
    join = union;
    IsValid = Distinct;
    bot = [];
    merge = merge_set;
    join_comm = λ u v. fun_ext λ x. or_comm (u x) (v x);
    join_assoc = λ u v w. fun_ext λ x. or_assoc (u x) (v x) (w x);
    join_idem = λ u. fun_ext λ x. or_idem (u x);
    join-bot = λ u. refl;
    bot-IsValid = tt;
    merge-IsValid = λ a b h _. merge_set-Distinct a b h;
    view-merge = λ a b _ _. fun_ext λ x. contains-merge_set x a b;
  }
