-- ===== src/Ring/Walk/Stops.antt =====
-- With a replication factor above the number of different nodes, the loop never ends: the source
-- says so in a comment ("assuming the replication factor will never be greater …").
use mathlib.Core.Path.{subst}
use anna.Prelude.{
  ℕ, zero, suc, ◌+◌, ◌<◌, Eq, ==_refl, ◌≡◌, refl, sym, ap, true, ◌||◌, none, some, List, [], ◌∷◌,
  ◌++◌, arith, ltb, length, Bool-cases, inl, inr, All, Option-cases, All-append_right,
  length-take-le,
}
use anna.Ring.Walk.{has, visit, walk, distinct}
use anna.Ring.Walk.Distinct.{stroll, stroll_done, stroll_step, stroll-distinct_from, walk-two_turns}

module _ {A K : Type 0} ⦃e : Eq K⦄ (key : A → K) where
  has-append : (x : A) (s t : List A) → has key x (s ++ t) ≡ (has key x s || has key x t)
  unfolding has
  has-append x [] t = refl
  has-append x (y ∷ s) t = ground (arith, has-append x s t)

  -- A node that was met stays among those that were met.
  visit-has : (x y : A) (s : List A × ℕ) → has key x s.0 ≡ true → has key x (visit key y s).0 ≡ true
  unfolding has
  visit-has x y (s, i) h = elim (Bool-cases (has key y s)) [
    | inl old ↦ rw old h
    | inr new ↦ rw new (ground (arith, has-append x s (y ∷ [])))
  ]

  visit-has_self : (x : A) (s : List A × ℕ) → has key x (visit key x s).0 ≡ true
  unfolding has
  visit-has_self x (s, i) = elim (Bool-cases (has key x s)) [
    | inl old ↦ rw old old
    | inr new ↦ rw new (ground (arith, has-append x s (x ∷ []), ==_refl (key x)))
  ]

  stroll-has :
      (rep : ℕ) (x : A) (xs : List A) (s : List A × ℕ)
      → has key x s.0 ≡ true
      → has key x (stroll key rep xs s).0 ≡ true
  unfolding stroll
  stroll-has rep x [] s h = h
  stroll-has rep x (y ∷ xs) s h = elim (Bool-cases (ltb s.1 rep)) [
    | inl more ↦
        subst Met (sym (stroll_step key rep xs y s more))
          (stroll-has rep x xs (visit key y s) (visit-has x y s h))
    | inr done ↦ subst Met (sym (stroll_done key rep (y ∷ xs) s done)) h
  ]
    where
      Met : List A × ℕ → Type 0
      Met u = has key x u.0 ≡ true

  -- A stroll that found too few met every node.
  stroll-met :
      (rep : ℕ) (xs : List A) (s : List A × ℕ)
      → ltb (stroll key rep xs s).1 rep ≡ true
      → All (λ x. has key x (stroll key rep xs s).0 ≡ true) xs
  unfolding stroll
  stroll-met rep [] s h = tt
  stroll-met rep (x ∷ xs) s h = elim (Bool-cases (ltb s.1 rep)) [
    | inl more ↦
        let e = stroll_step key rep xs x s more in
        subst (λ u. All (λ y. has key y u.0 ≡ true) (x ∷ xs)) (sym e)
          (
            stroll-has rep x xs (visit key x s) (visit-has_self x s),
            stroll-met rep xs (visit key x s) (subst (λ u. ltb u.1 rep ≡ true) e h),
          )
    | inr done ↦ absurd (ground (arith, stroll_done key rep (x ∷ xs) s done))
  ]

  -- Where every node of the ring was met, a round changes nothing.
  walk_stuck :
      (fuel rep : ℕ) (ring pos : List A) (s : List A × ℕ)
      → ltb s.1 rep ≡ true
      → All (λ x. has key x s.0 ≡ true) ring
      → All (λ x. has key x s.0 ≡ true) pos
      → walk key fuel rep ring pos s ≡ none
  unfolding walk
  walk_stuck zero rep ring pos s m h k = refl
  walk_stuck (suc fuel) rep ring [] s m h k = refl
  walk_stuck (suc fuel) rep ring (x ∷ []) (t, i) m h k =
      rw (m, k.0) (walk_stuck fuel rep ring ring (t, i) m h h)
  walk_stuck (suc fuel) rep ring (x ∷ y ∷ pos) (t, i) m h k =
      rw (m, k.0) (walk_stuck fuel rep ring (y ∷ pos) (t, i) m h k.1)

  walk-suc :
      (f rep : ℕ) (ring pos : List A) (s : List A × ℕ) (t : List A)
      → walk key f rep ring pos s ≡ some t
      → walk key (suc f) rep ring pos s ≡ some t
  unfolding walk
  walk-suc zero rep ring pos s t h = absurd (cc)
  walk-suc (suc f) rep ring [] s t h = h
  walk-suc (suc f) rep ring (x ∷ []) s t h =
      ground (arith, walk-suc f rep ring ring (visit key x s) t)
  walk-suc (suc f) rep ring (x ∷ y ∷ pos) s t h =
      ground (arith, walk-suc f rep ring (y ∷ pos) (visit key x s) t)

  walk-add :
      (n f rep : ℕ) (ring pos : List A) (s : List A × ℕ) (t : List A)
      → walk key f rep ring pos s ≡ some t
      → walk key (n + f) rep ring pos s ≡ some t
  walk-add zero f rep ring pos s t h = let e : 0 + f ≡ f = omega arith in rw e h
  walk-add (suc n) f rep ring pos s t h =
      let e : suc n + f ≡ suc (n + f) = omega arith in
      rw e (walk-suc (n + f) rep ring pos s t (walk-add n f rep ring pos s t h))

  -- Where the ring has fewer different nodes than the loop is to find, no number of rounds ends it.
  pub walk_forever :
      (fuel rep : ℕ) (r : A) (ring pos : List A) (x : A)
      → length (distinct key (x ∷ pos ++ r ∷ ring)) < rep
      → walk key fuel rep (r ∷ ring) (x ∷ pos) ([], 0) ≡ none
  walk_forever fuel rep r ring pos x few =
      elim (Option-cases (walk key fuel rep (r ∷ ring) (x ∷ pos) ([], 0))) [
        | inl never ↦ never
        | inr (t, ends) ↦ absurd (
            cc (
              walk-add (length (x ∷ pos) + suc (length (r ∷ ring))) fuel rep (r ∷ ring) (x ∷ pos)
                  ([], 0) t ends,
              ap (λ n. walk key n rep (r ∷ ring) (x ∷ pos) ([], 0)) fuel_sum,
              walk-two_turns key fuel rep r ring pos x,
              walk_stuck (suc fuel) rep (r ∷ ring) (r ∷ ring) held short met met,
            ))
      ]
    where
      nodes : List A
      nodes = x ∷ pos ++ r ∷ ring

      held : List A × ℕ
      held = stroll key rep nodes ([], 0)

      fuel_sum :
          length (x ∷ pos) + suc (length (r ∷ ring)) + fuel
          ≡ length (x ∷ pos) + (length (r ∷ ring) + suc fuel)
      fuel_sum = omega arith

      short : ltb held.1 rep ≡ true
      short = ground (
        arith,
        stroll-distinct_from key rep rep 0 nodes [] (omega arith),
        length-take-le rep (distinct key nodes),
      )

      met : All (λ y. has key y held.0 ≡ true) (r ∷ ring)
      met =
          All-append_right (λ y. has key y held.0 ≡ true) (x ∷ pos) (r ∷ ring)
            (stroll-met rep nodes ([], 0) short)
