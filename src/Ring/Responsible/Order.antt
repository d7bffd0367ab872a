-- ===== src/Ring/Responsible/Order.antt =====
-- What the two loops over the ring return, and when they never return.
use anna.Prelude.{
  ℕ, suc, ◌+◌, Eq, list_eq, nat_eq, ◌≡◌, refl, ap, ◌∙◌, Bool, true, false, List, [], ◌∷◌, ◌++◌, map,
  length, take, arith, if◌then◌else◌, leb, Bool-cases, inl, inr,
}
use anna.Text.{Text}
use anna.Run.{ok, fault, endless, or_fault, ◌>>=◌}
use anna.Threads.{ServerThread, id}
use anna.Ring.ConsistentHashMap
use anna.Ring.ConsistentHashMap.Successor.{find-ne-nil}
use anna.Ring.Walk.{walk, distinct}
use anna.Ring.Walk.Distinct.{walk-distinct}
use anna.Ring.Walk.Stops.{walk_forever}
use anna.Ring.HashRing.{HashRing, Hasher}
use anna.Ring.Responsible.{second, from_position, responsible_global, responsible_local}

module _ {K : Type 0} ⦃e : Eq K⦄ (key : ServerThread → K) where
  -- The different threads of the ring, clockwise from a position and once around.
  abbrev pub clockwise : List (ℕ × ServerThread) → List (ℕ × ServerThread) → List ServerThread
  clockwise pos nodes = distinct key (map second pos ++ map second nodes)

  length-map-second : (nodes : List (ℕ × ServerThread)) → length (map second nodes) ≡ length nodes
  length-map-second [] = refl
  length-map-second (n ∷ nodes) = ap suc (length-map-second nodes)

  from_position-clockwise :
      (rep : ℕ) (n x : ℕ × ServerThread) (nodes pos : List (ℕ × ServerThread))
      → from_position key rep (n ∷ nodes) (x ∷ pos) ≡ (
          if leb rep (length (clockwise (x ∷ pos) (n ∷ nodes)))
          then ok (take rep (clockwise (x ∷ pos) (n ∷ nodes)))
          else fault endless)
  unfolding from_position
  from_position-clockwise rep n x nodes pos =
      elim (Bool-cases (leb rep (length (clockwise (x ∷ pos) (n ∷ nodes))))) [
        | inl enough ↦ rw enough (
            ap (or_fault endless) (
              ap (λ f. walk key f rep (map second (n ∷ nodes)) (map second (x ∷ pos)) ([], 0)) fuel
              ∙ walk-distinct key 0 rep (second n) (map second nodes) (map second pos) (second x)
                  (ground arith)))
        | inr few ↦ rw few (
            ap (or_fault endless) (
              walk_forever key _ rep (second n) (map second nodes) (map second pos) (second x)
                (ground arith)))
      ]
    where
      fuel :
          length (x ∷ pos) + (length (n ∷ nodes) + 1)
          ≡ length (map second (x ∷ pos)) + (length (map second (n ∷ nodes)) + suc 0)
      fuel = omega (arith, length-map-second pos, length-map-second nodes)

  from_find :
      (rep hash : ℕ) (n : ℕ × ServerThread) (nodes : List (ℕ × ServerThread))
      → (let pos = ConsistentHashMap.find hash (n ∷ nodes) in
          from_position key rep (n ∷ nodes) pos ≡ (
            if leb rep (length (clockwise pos (n ∷ nodes)))
            then ok (take rep (clockwise pos (n ∷ nodes)))
            else fault endless))
  from_find rep hash n nodes = stop (ConsistentHashMap.find hash (n ∷ nodes)) refl
    where
      stop :
          (pos : List (ℕ × ServerThread))
          → ConsistentHashMap.find hash (n ∷ nodes) ≡ pos
          → from_position key rep (n ∷ nodes) pos ≡ (
              if leb rep (length (clockwise pos (n ∷ nodes)))
              then ok (take rep (clockwise pos (n ∷ nodes)))
              else fault endless)
      stop [] h = absurd (find-ne-nil hash n nodes h)
      stop (x ∷ pos) h = from_position-clockwise rep n x nodes pos

module _ (hasher : Hasher) (key : Text) (rep : ℕ) (ring : HashRing) where
  abbrev position : List (ℕ × ServerThread)
  position = ConsistentHashMap.find (hasher.of_key key) ring.nodes

  -- On a ring with a node, the threads of a key are the first `rep` different ones clockwise from
  -- the key's hash, if the ring has so many; if it has fewer, the loop never ends.
  pub responsible_global-clockwise :
      (n : ℕ × ServerThread) (nodes : List (ℕ × ServerThread))
      → ring.nodes ≡ n ∷ nodes
      → responsible_global hasher key rep ring ≡ (
          if leb rep (length (clockwise id position ring.nodes))
          then ok (take rep (clockwise id position ring.nodes))
          else fault endless)
  unfolding responsible_global
  responsible_global-clockwise n nodes h = rw h (from_find id rep (hasher.of_key key) n nodes)

  -- The same of the numbers of the threads in a node.
  pub responsible_local-clockwise :
      (n : ℕ × ServerThread) (nodes : List (ℕ × ServerThread))
      → ring.nodes ≡ n ∷ nodes
      → responsible_local hasher key rep ring ≡ (
          if leb rep (length (clockwise (λ st. st.tid) position ring.nodes))
          then ok (map (λ st. st.tid) (take rep (clockwise (λ st. st.tid) position ring.nodes)))
          else fault endless)
  unfolding responsible_local
  responsible_local-clockwise n nodes h = rw h (
      ap (λ m. m >>= λ threads. ok (map (λ st. st.tid) threads))
        (from_find (λ st. st.tid) rep (hasher.of_key key) n nodes)
      ∙ numbers (leb rep _) _)
    where
      numbers :
          (b : Bool) (threads : List ServerThread)
          → ((if b then ok threads else fault endless) >>= λ ts. ok (map (λ st. st.tid) ts))
            ≡ (if b then ok (map (λ st. st.tid) threads) else fault endless)
      numbers true threads = refl
      numbers false threads = refl
