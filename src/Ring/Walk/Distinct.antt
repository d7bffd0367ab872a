-- ===== src/Ring/Walk/Distinct.antt =====
-- One turn of the ring meets the first different nodes, in order.
use mathlib.Core.List.{append_assoc, append-nil}
use anna.Prelude.{
  ℕ, zero, suc, ◌+◌, ◌≤◌, Eq, ◌≡◌, refl, sym, ap, ◌∙◌, true, false, some, List, [], ◌∷◌, ◌++◌,
  arith, if◌then◌else◌, ltb, lt→ltb, take, length, length-take_le, Bool-cases, inl, inr,
}
use anna.Ring.Walk.{has, visit, walk, distinct_from, distinct}

module _ {A K : Type 0} ⦃e : Eq K⦄ (key : A → K) where
  -- The loop over a list that does not turn around.
  unfoldable pub stroll : ℕ → List A → List A × ℕ → List A × ℕ
  stroll rep [] s = s
  stroll rep (x ∷ xs) s = stroll rep xs (if ltb s.1 rep then visit key x s else s)

  pub stroll_done :
      (rep : ℕ) (xs : List A) (s : List A × ℕ) → ltb s.1 rep ≡ false → stroll rep xs s ≡ s
  unfolding stroll
  stroll_done rep [] s h = refl
  stroll_done rep (x ∷ xs) s h = rw h (stroll_done rep xs s h)

  stroll-append :
      (rep : ℕ) (xs ys : List A) (s : List A × ℕ)
      → stroll rep (xs ++ ys) s ≡ stroll rep ys (stroll rep xs s)
  unfolding stroll
  stroll-append rep [] ys s = refl
  stroll-append rep (x ∷ xs) ys s = stroll-append rep xs ys _

  -- A stroll takes the first `k` different nodes, where `k` are missing, and counts them.
  pub stroll-distinct_from :
      (rep k i : ℕ) (xs seen : List A)
      → i + k ≡ rep
      → stroll rep xs (seen, i) ≡ (
        seen ++ take k (distinct_from key seen xs),
        i + length (take k (distinct_from key seen xs)),
      )
  unfolding stroll distinct_from
  stroll-distinct_from rep zero i xs seen h =
      rw (stroll_done rep xs (seen, i) (ground arith), append-nil) (ground arith)
  stroll-distinct_from rep (suc k) i [] seen h = rw append-nil (ground arith)
  stroll-distinct_from rep (suc k) i (x ∷ xs) seen h =
      rw (lt→ltb i rep (omega arith)) (elim (Bool-cases (has key x seen)) [
        | inl old ↦ rw old (stroll-distinct_from rep (suc k) i xs seen h)
        | inr new ↦ rw new (
            stroll-distinct_from rep k (i + 1) xs (seen ++ x ∷ []) (omega arith)
            ∙ rw append_assoc (ground arith))
      ])

  pub walk_done :
      (f rep : ℕ) (ring pos : List A) (x : A) (s : List A × ℕ)
      → ltb s.1 rep ≡ false
      → walk key (suc f) rep ring (x ∷ pos) s ≡ some s.0
  unfolding walk
  walk_done f rep ring [] x s h = rw h
  walk_done f rep ring (y ∷ pos) x s h = rw h

  -- One round for each node of the list, and `n` more.
  abbrev rounds : List A → ℕ → ℕ
  rounds [] n = n
  rounds (x ∷ xs) n = suc (rounds xs n)

  rounds_lem : (xs : List A) (n : ℕ) → rounds xs n ≡ length xs + n
  rounds_lem [] n = omega arith
  rounds_lem (x ∷ xs) n = omega (arith, rounds_lem xs n)

  walk_step :
      (n rep : ℕ) (ring pos : List A) (x y : A) (s : List A × ℕ)
      → ltb s.1 rep ≡ true
      → walk key (suc n) rep ring (x ∷ y ∷ pos) s ≡ walk key n rep ring (y ∷ pos) (visit key x s)
  unfolding walk
  walk_step n rep ring pos x y s h = rw h

  walk_turn :
      (n rep : ℕ) (ring : List A) (x : A) (s : List A × ℕ)
      → ltb s.1 rep ≡ true
      → walk key (suc n) rep ring (x ∷ []) s ≡ walk key n rep ring ring (visit key x s)
  unfolding walk
  walk_turn n rep ring x s h = rw h

  pub stroll_step :
      (rep : ℕ) (xs : List A) (x : A) (s : List A × ℕ)
      → ltb s.1 rep ≡ true
      → stroll rep (x ∷ xs) s ≡ stroll rep xs (visit key x s)
  unfolding stroll
  stroll_step rep xs x s h = rw h

  -- The loop on the ring walks to the end of the list, and goes on from the start of the ring.
  walk-stroll :
      (f rep : ℕ) (r : A) (ring pos : List A) (x : A) (s : List A × ℕ)
      → walk key (rounds (x ∷ pos) (suc f)) rep (r ∷ ring) (x ∷ pos) s
        ≡ walk key (suc f) rep (r ∷ ring) (r ∷ ring) (stroll rep (x ∷ pos) s)
  walk-stroll f rep r ring [] x s = elim (Bool-cases (ltb s.1 rep)) [
    | inr done ↦
        walk_done (suc f) rep (r ∷ ring) [] x s done
        ∙ rw (stroll_done rep (x ∷ []) s done) (sym (walk_done f rep (r ∷ ring) ring r s done))
    | inl more ↦
        walk_turn (suc f) rep (r ∷ ring) x s more
        ∙ rw (stroll_step rep [] x s more) (unfold stroll in refl)
  ]
  walk-stroll f rep r ring (y ∷ pos) x s = elim (Bool-cases (ltb s.1 rep)) [
    | inr done ↦
        walk_done (rounds (y ∷ pos) (suc f)) rep (r ∷ ring) (y ∷ pos) x s done
        ∙ rw (stroll_done rep (x ∷ y ∷ pos) s done) (sym (walk_done f rep (r ∷ ring) ring r s done))
    | inl more ↦
        walk_step (rounds (y ∷ pos) (suc f)) rep (r ∷ ring) pos x y s more
        ∙ walk-stroll f rep r ring pos y (visit key x s)
        ∙ rw (stroll_step rep (y ∷ pos) x s more)
  ]

  -- Two turns, and what the loop holds after them.
  pub walk-two_turns :
      (f rep : ℕ) (r : A) (ring pos : List A) (x : A)
      → walk key (length (x ∷ pos) + (length (r ∷ ring) + suc f)) rep (r ∷ ring) (x ∷ pos) ([], 0)
        ≡ walk key (suc f) rep (r ∷ ring) (r ∷ ring) (stroll rep (x ∷ pos ++ r ∷ ring) ([], 0))
  walk-two_turns f rep r ring pos x =
      let fuel : length (x ∷ pos) + (length (r ∷ ring) + suc f)
          ≡ rounds (x ∷ pos) (suc (rounds ring (suc f))) =
        omega (arith, rounds_lem (x ∷ pos) (suc (rounds ring (suc f))), rounds_lem ring (suc f)) in
      rw fuel (
        walk-stroll (rounds ring (suc f)) rep r ring pos x ([], 0)
        ∙ walk-stroll f rep r ring ring r (stroll rep (x ∷ pos) ([], 0))
        ∙ rw (stroll-append rep (x ∷ pos) (r ∷ ring) ([], 0)))

  -- From a position of the ring, the loop collects the first `rep` different nodes that stand from
  -- the position on and then from the start of the ring, in that order, if there are so many. As
  -- many rounds as there are nodes from the position and in the ring, and one more, are enough.
  pub walk-distinct :
      (f rep : ℕ) (r : A) (ring pos : List A) (x : A)
      → rep ≤ length (distinct key (x ∷ pos ++ r ∷ ring))
      → walk key (length (x ∷ pos) + (length (r ∷ ring) + suc f)) rep (r ∷ ring) (x ∷ pos) ([], 0)
        ≡ some (take rep (distinct key (x ∷ pos ++ r ∷ ring)))
  walk-distinct f rep r ring pos x h =
      let nodes = distinct key (x ∷ pos ++ r ∷ ring) in
      walk-two_turns f rep r ring pos x
      ∙ ap (walk key (suc f) rep (r ∷ ring) (r ∷ ring))
          (stroll-distinct_from rep rep 0 (x ∷ pos ++ r ∷ ring) [] (omega arith))
      ∙ walk_done f rep (r ∷ ring) ring r (take rep nodes, 0 + length (take rep nodes))
          (let full = length-take_le rep nodes h in ground (arith, full))
