-- ===== src/Run.antt =====
-- How a run of the C++ code can end otherwise than by its result: the faults that the modelled code
-- can run into, none of which it checks for.
use anna.Prelude.{◌≡◌, refl, Option, none, some, Bool, true, false, if◌then◌else◌}

pub data Fault : Type 0 where
  -- a loop that never ends
  endless : Fault
  -- `% threads.size()` and `std::next` on an empty list
  no_threads : Fault
  -- an element of a vector or message that is not there: `v[0]`, `response.tuples(0)`
  out_of_range : Fault
  -- a call through the null pointer that `serializers[LatticeType::NONE]` gives
  null_serializer : Fault
  -- `Tier_Parse` or `stoi` of something else, which leaves its target unset or throws
  unparsed : Fault

pub data Run {ℓ} (R : Type ℓ) : Type ℓ where
  -- the end that the source means, with the state and what is returned
  ok : R → Run R
  -- any other end
  fault : Fault → Run R

infixl 5 ◌>>=◌
-- The next part of a function starts from where the last one ended, if it ended.
abbrev pub ◌>>=◌ {ℓ κ} : {R : Type ℓ} {S : Type κ} → Run R → (R → Run S) → Run S
fault why >>= continue = fault why
ok r >>= continue = continue r

abbrev pub or_fault {ℓ} : {A : Type ℓ} → Fault → Option A → Run A
or_fault e none = fault e
or_fault e (some a) = ok a

-- What holds of the result, if the run ends in one.
pub data Ensures {A : Type 0} (P : A → Type 0) : Run A → Type 0 where
  returns : {a : A} → P a → Ensures P (ok a)
  faults : {e : Fault} → Ensures P (fault e)

module _ {A : Type 0} {P : A → Type 0} where
  pub Ensures-if :
      (b : Bool) (m n : Run A)
      → (b ≡ true → Ensures P m)
      → (b ≡ false → Ensures P n)
      → Ensures P (if b then m else n)
  Ensures-if true m n h k = h refl
  Ensures-if false m n h k = k refl

  pub Ensures-ok : {a : A} (m : Run A) → Ensures P m → m ≡ ok a → P a
  Ensures-ok m (returns p) e = go p e
    where
      go : {a b : A} → P a → ok a ≡ ok b → P b
      go {a} {b} p e = let same : a ≡ b = cc in rw (← same) p
  Ensures-ok m faults e = cc

  pub Ensures-eq : (m : Run A) → ((a : A) → m ≡ ok a → P a) → Ensures P m
  Ensures-eq (ok a) h = returns (h a refl)
  Ensures-eq (fault e) h = faults

pub Ensures-bind :
    {A B : Type 0} (P : A → Type 0) {Q : B → Type 0} (m : Run A) (f : A → Run B)
    → Ensures P m
    → ((a : A) → P a → Ensures Q (f a))
    → Ensures Q (m >>= f)
Ensures-bind P m f (returns {a = a} p) k = k a p
Ensures-bind P m f faults k = faults

pub Ensures-mono :
    {A : Type 0} {P Q : A → Type 0} (m : Run A) → ((a : A) → P a → Q a) → Ensures P m → Ensures Q m
Ensures-mono m f (returns p) = returns (f _ p)
Ensures-mono m f faults = faults
