-- ===== src/Tests/Lattices.antt =====
-- Examples for the lattices and the store over them.
use mathlib.Core.List.{Memᴰ}
use mathlib.Core.List.Memᴰ.{head, tail}
use anna.Prelude.{
  ℕ, ◌≡◌, ◌≢◌, ◌≤◌, max, refl, ap, arith, ◌⊎◌, inl, inr, list_eq, nat_eq, ltb, true, false, List,
  [], ◌∷◌, All,
}
use anna.Containers.HashMap
use anna.Lattice.Set.{merge_set}
use anna.Lattice.MapLattice.{join_option}
use anna.Lattice.Winner.{deliver}
use anna.Lattice.Lww.{TimestampValuePair, merge_lww, lww_convergent, lww_newest, lww_tie}
use anna.Lattice.Priority.{Compare, PriorityValuePair, merge_priority, priority_convergent}
use anna.Lattice.Causal.{
  VectorClockValuePair, MultiKeyCausalPayload, merge_single, merge_single_cases, IsBefore,
}
use anna.Kvs.KvStore.{put_all}
use anna.Kvs.KvStore.Union.{written, put_all-union}
use anna.Containers.HashSet
use anna.Text.{Text, codes}
use anna.Prelude.{◌||◌}

-- Two writes to one key and one to another.
abbrev log : List (Text × List Text)
log = (codes "a", codes "x" ∷ []) ∷ (codes "b", codes "y" ∷ []) ∷ (codes "a", codes "z" ∷ []) ∷ []

put_all-union_example :
    HashSet.contains (codes "z") (HashMap.at [] (codes "a") (put_all [] merge_set log []))
    ≡ (HashSet.contains (codes "z") [] || written (codes "a") (codes "z") log)
unfolding HashMap.find
put_all-union_example = put_all-union (codes "a") (codes "z") log []

abbrev old : TimestampValuePair ℕ
old = record { timestamp = 3; value = 10 }

abbrev new : TimestampValuePair ℕ
new = record { timestamp = 4; value = 20 }

abbrev tied : TimestampValuePair ℕ
tied = record { timestamp = 4; value = 21 }

one_of : {x : TimestampValuePair ℕ} → Memᴰ x (old ∷ new ∷ []) → (x ≡ old) ⊎ (x ≡ new)
one_of (head e) = inl e
one_of (tail (head e)) = inr e
one_of (tail (tail m)) = elim m [ ]

coherent :
    (x y : TimestampValuePair ℕ)
    → Memᴰ x (old ∷ new ∷ [])
    → Memᴰ y (old ∷ new ∷ [])
    → x.timestamp ≡ y.timestamp
    → x ≡ y
coherent x y h k e = both (one_of h) (one_of k)
  where
    both : (x ≡ old) ⊎ (x ≡ new) → (y ≡ old) ⊎ (y ≡ new) → x ≡ y
    both (inl a) (inl b) = cc
    both (inl a) (inr b) = absurd (omega (arith, ap (λ p. p.timestamp) a, ap (λ p. p.timestamp) b))
    both (inr a) (inl b) = absurd (omega (arith, ap (λ p. p.timestamp) a, ap (λ p. p.timestamp) b))
    both (inr a) (inr b) = cc

lww_convergent_example : deliver merge_lww old (new ∷ []) ≡ deliver merge_lww old (new ∷ new ∷ [])
lww_convergent_example =
    lww_convergent old (new ∷ []) (new ∷ new ∷ []) coherent (head refl, tt)
      (head refl, (head refl, tt))

lww_newest_example :
    Memᴰ (deliver merge_lww old (new ∷ [])) (old ∷ new ∷ [])
    × All (λ x. x.timestamp ≤ (deliver merge_lww old (new ∷ [])).timestamp) (new ∷ [])
lww_newest_example = lww_newest old (new ∷ [])

lww_tie_example : merge_lww new tied ≢ merge_lww tied new
lww_tie_example = lww_tie new tied refl (λ e. omega arith)

-- The numbers by their order, as priorities.
pub ltb_irrefl : (a : ℕ) → ltb a a ≡ false
ltb_irrefl a = ground arith

pub ltb_asymm : (a b : ℕ) → ltb a b ≡ true → ltb b a ≡ false
ltb_asymm a b h = ground arith

pub not_ltb_trans : (a b c : ℕ) → ltb b a ≡ false → ltb c b ≡ false → ltb c a ≡ false
not_ltb_trans a b c h k = ground arith

abbrev pub by_order : Compare ℕ
by_order = record {
  less = ltb;
  less_irrefl = ltb_irrefl;
  less_asymm = ltb_asymm;
  not_less_trans = not_ltb_trans;
}

abbrev urgent : PriorityValuePair ℕ ℕ
urgent = record { priority = 1; value = 10 }

abbrev late : PriorityValuePair ℕ ℕ
late = record { priority = 8; value = 20 }

one_priority : {x : PriorityValuePair ℕ ℕ} → Memᴰ x (late ∷ urgent ∷ []) → (x ≡ late) ⊎ (x ≡ urgent)
one_priority (head e) = inl e
one_priority (tail (head e)) = inr e
one_priority (tail (tail m)) = elim m [ ]

told_apart :
    (x y : PriorityValuePair ℕ ℕ)
    → Memᴰ x (late ∷ urgent ∷ [])
    → Memᴰ y (late ∷ urgent ∷ [])
    → ltb x.priority y.priority ≡ false
    → ltb y.priority x.priority ≡ false
    → x ≡ y
told_apart x y h k p q = both (one_priority h) (one_priority k)
  where
    different : x.priority ≡ 8 → y.priority ≡ 1 → ⊥
    different a b = ground (arith, a, b, p, q)

    different' : x.priority ≡ 1 → y.priority ≡ 8 → ⊥
    different' a b = ground (arith, a, b, p, q)

    both : (x ≡ late) ⊎ (x ≡ urgent) → (y ≡ late) ⊎ (y ≡ urgent) → x ≡ y
    both (inl a) (inl b) = cc
    both (inl a) (inr b) = absurd (different (ap (λ z. z.priority) a) (ap (λ z. z.priority) b))
    both (inr a) (inl b) = absurd (different' (ap (λ z. z.priority) a) (ap (λ z. z.priority) b))
    both (inr a) (inr b) = cc

priority_convergent_example :
    deliver (merge_priority by_order) late (urgent ∷ [])
    ≡ deliver (merge_priority by_order) late (urgent ∷ urgent ∷ [])
priority_convergent_example =
    priority_convergent by_order late (urgent ∷ []) (urgent ∷ urgent ∷ []) told_apart
      (head refl, tt) (head refl, (head refl, tt))

-- Two concurrent versions, over a clock of two replicas.
abbrev here : VectorClockValuePair ℕ (List ℕ)
here = record { vector_clock = (1, 2) ∷ (2, 1) ∷ []; value = 10 ∷ [] }

abbrev there : VectorClockValuePair ℕ (List ℕ)
there = record { vector_clock = (1, 1) ∷ (2, 3) ∷ []; value = 20 ∷ [] }

merge_single_cases_example :
    ((k : ℕ)
      → HashMap.find k (merge_single merge_set here there).vector_clock
        ≡ join_option max (HashMap.find k here.vector_clock) (HashMap.find k there.vector_clock))
    × (IsBefore here.vector_clock there.vector_clock
        → (merge_single merge_set here there).value ≡ there.value)
    × (IsBefore there.vector_clock here.vector_clock
        → ¬ (IsBefore here.vector_clock there.vector_clock)
        → (merge_single merge_set here there).value ≡ here.value)
    × (¬ (IsBefore there.vector_clock here.vector_clock)
        → ¬ (IsBefore here.vector_clock there.vector_clock)
        → (merge_single merge_set here there).value ≡ merge_set here.value there.value)
unfolding HashMap.find
merge_single_cases_example =
    merge_single_cases merge_set here there ((refl, (refl, tt)), (omega arith, (omega arith, tt)))
      ((refl, (refl, tt)), (omega arith, (omega arith, tt)))

abbrev with_deps : MultiKeyCausalPayload ℕ (List ℕ)
with_deps = record {
  vector_clock = (1, 2) ∷ [];
  dependencies = (7, (1, 1) ∷ []) ∷ [];
  value = 10 ∷ [];
}

abbrev left_map : List (ℕ × ℕ)
left_map = (1, 4) ∷ []

abbrev right_map : List (ℕ × ℕ)
right_map = (1, 6) ∷ (2, 5) ∷ []

abbrev left_set : List ℕ
left_set = 1 ∷ 2 ∷ []

abbrev right_set : List ℕ
right_set = 2 ∷ 3 ∷ []
