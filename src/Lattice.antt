-- ===== src/Lattice.antt =====
-- The lattice classes of common/include/lattices, each in a child. The record Lattice is an
-- abstraction of this model, not a promise of the base class `Lattice<T>`, which has no laws: an
-- object whose visible part is merged by a least upper bound. `Bool`, `Max`, `Set`, `Map` and the clocks
-- fill it; `Lww`, `Priority` and `Causal` do not, and their theorems state their own conditions.
pub mod Converge
pub mod Max
pub mod Set
pub mod MapLattice
pub mod Winner
pub mod Lww
pub mod Priority
pub mod Causal
use anna.Prelude.{◌≡◌, List, [], ◌∷◌}

-- `merge a b` is the element of the object after `a.merge(b)`; `view` is what a client can see of
-- it, and `join` the abstract least upper bound that the merge computes. `bot` is the element that
-- the default constructor leaves.
pub record Lattice {ℓ} (A : Type ℓ) : Type (ℓ + 1) where
  pub View : Type ℓ
  pub view : A → View
  pub join : View → View → View
  pub IsValid : A → Type 0
  pub bot : A
  pub merge : A → A → A
  pub join_comm : (u v : View) → join u v ≡ join v u
  pub join_assoc : (u v w : View) → join (join u v) w ≡ join u (join v w)
  pub join_idem : (u : View) → join u u ≡ u
  pub join-bot : (u : View) → join (view bot) u ≡ u
  pub bot-IsValid : IsValid bot
  pub merge-IsValid : (a b : A) → IsValid a → IsValid b → IsValid (merge a b)
  pub view-merge : (a b : A) → IsValid a → IsValid b → view (merge a b) ≡ join (view a) (view b)
