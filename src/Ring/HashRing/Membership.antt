-- ===== src/Ring/HashRing/Membership.antt =====
-- What `insert` and `remove` of HashRing keep and leave behind, on a ring of the global hasher.
use mathlib.Core.Path.{subst}
use anna.Prelude.{
  ℕ, zero, suc, ◌+◌, ◌≤◌, ◌<◌, ==_refl, ==_iff, list_eq, nat_eq, ◌≡◌, ◌≢◌, refl, ◌∙◌, Bool, true,
  false, List, [], ◌∷◌, arith, Bool-cases, inl, inr, All, All-mono, All-both, ℤ, pos, ltb, nat_beq,
  nat_beq_iff, ltb_ℤ,
}
use anna.Containers.HashMap
use anna.Text.{Text}
use anna.Threads.{ServerThread, id, virtual_id, same_thread}
use anna.Threads.Identity.{same_thread_iff}
use anna.Ring.ConsistentHashMap
use anna.Ring.ConsistentHashMap.{IsSorted, Above}
use anna.Ring.ConsistentHashMap.Successor.{insert-IsSorted, erase-IsSorted}
use anna.Ring.HashRing.{
  HashRing, Hasher, global_hasher, virtual_thread, virtual_thread_num, insert_virtual,
  erase_virtual, insert, remove,
}

module _ {ℓ} {T : Type ℓ} (P : ℕ × T → Type 0) where
  insert-All :
      (hash : ℕ) (node : T) (nodes : List (ℕ × T))
      → P (hash, node)
      → All P nodes
      → All P (ConsistentHashMap.insert hash node nodes)
  unfolding ConsistentHashMap.insert
  insert-All hash node [] p h = (p, tt)
  insert-All hash node ((g, t) ∷ nodes) p h = elim (Bool-cases (ltb hash g)) [
    | inl less ↦ rw less (p, h)
    | inr more ↦ rw more (elim (Bool-cases (nat_beq hash g)) [
      | inl same ↦ rw same h
      | inr other ↦ rw other (h.0, insert-All hash node nodes p h.1)
    ])
  ]

  erase-All :
      (hash : ℕ) (nodes : List (ℕ × T)) → All P nodes → All P (ConsistentHashMap.erase hash nodes)
  unfolding ConsistentHashMap.erase
  erase-All hash [] h = tt
  erase-All hash ((g, t) ∷ nodes) h = elim (Bool-cases (nat_beq g hash)) [
    | inl same ↦ rw same h.1
    | inr other ↦ rw other (h.0, erase-All hash nodes h.1)
  ]

Above-ne {ℓ} :
    {T : Type ℓ} (hash : ℕ) (nodes : List (ℕ × T)) → Above hash nodes → All (λ n. n.0 ≢ hash) nodes
Above-ne hash [] h = tt
Above-ne hash ((g, t) ∷ nodes) h = (omega arith, Above-ne hash nodes h.1)

erase_gone {ℓ} :
    {T : Type ℓ} (hash : ℕ) (nodes : List (ℕ × T))
    → IsSorted nodes
    → All (λ n. n.0 ≢ hash) (ConsistentHashMap.erase hash nodes)
unfolding ConsistentHashMap.erase
erase_gone hash [] s = tt
erase_gone hash ((g, t) ∷ nodes) s = elim (Bool-cases (nat_beq g hash)) [
  | inl same ↦ rw same (rw (← (let e : g ≡ hash = ground arith in e)) (Above-ne g nodes s.0))
  | inr other ↦ rw other (ground arith, erase_gone hash nodes s.1)
]

module _ (std_hash : Text → ℕ) where
  abbrev hasher : Hasher
  hasher = global_hasher std_hash

  -- The node stands at the hash of its thread, whose virtual number is one that `insert` makes, and
  -- its server is among the unique ones.
  abbrev pub IsPlaced : HashRing → ℕ × ServerThread → Type 0
  IsPlaced ring n =
      (n.0 ≡ hasher.of_thread n.1)
      × (n.1.virtual_num < virtual_thread_num)
      × (HashMap.contains (id n.1) ring.unique_servers ≡ true)

  pub record IsConsistent (ring : HashRing) : Type 0 where
    pub sorted : IsSorted ring.nodes
    pub placed : All (IsPlaced ring) ring.nodes
    pub servers : HashMap.Distinct ring.unique_servers

  module _ (public_ip private_ip : Text) (tid : ℕ) where
    insert_virtual-IsSorted :
        (rounds v : ℕ) (nodes : List (ℕ × ServerThread))
        → IsSorted nodes
        → IsSorted (insert_virtual hasher public_ip private_ip tid rounds v nodes)
    unfolding insert_virtual
    insert_virtual-IsSorted zero v nodes s = s
    insert_virtual-IsSorted (suc rounds) v nodes s =
        insert_virtual-IsSorted rounds (v + 1) _ (insert-IsSorted _ _ nodes s)

    insert_virtual-All :
        (P : ℕ × ServerThread → Type 0) (bound rounds v : ℕ) (nodes : List (ℕ × ServerThread))
        → ((w : ℕ)
            → w < bound
            → (let st = virtual_thread public_ip private_ip tid w in P (hasher.of_thread st, st)))
        → v + rounds ≤ bound
        → All P nodes
        → All P (insert_virtual hasher public_ip private_ip tid rounds v nodes)
    unfolding insert_virtual
    insert_virtual-All P bound zero v nodes make h k = k
    insert_virtual-All P bound (suc rounds) v nodes make h k =
        insert_virtual-All P bound rounds (v + 1) _ make (omega arith)
          (insert-All P _ _ nodes (make v (omega arith)) k)

    erase_virtual-IsSorted :
        (rounds v : ℕ) (nodes : List (ℕ × ServerThread))
        → IsSorted nodes
        → IsSorted (erase_virtual hasher public_ip private_ip tid rounds v nodes)
    unfolding erase_virtual
    erase_virtual-IsSorted zero v nodes s = s
    erase_virtual-IsSorted (suc rounds) v nodes s =
        erase_virtual-IsSorted rounds (v + 1) _ (erase-IsSorted _ nodes s)

    erase_virtual-All :
        (P : ℕ × ServerThread → Type 0) (rounds v : ℕ) (nodes : List (ℕ × ServerThread))
        → All P nodes
        → All P (erase_virtual hasher public_ip private_ip tid rounds v nodes)
    unfolding erase_virtual
    erase_virtual-All P zero v nodes k = k
    erase_virtual-All P (suc rounds) v nodes k =
        erase_virtual-All P rounds (v + 1) _ (erase-All P _ nodes k)

    erase_virtual_gone :
        (w rounds v : ℕ) (nodes : List (ℕ × ServerThread))
        → v ≤ w
        → w < v + rounds
        → IsSorted nodes
        → All
            (λ n. n.0 ≢ hasher.of_thread (virtual_thread public_ip private_ip tid w))
            (erase_virtual hasher public_ip private_ip tid rounds v nodes)
    unfolding erase_virtual
    erase_virtual_gone w zero v nodes h k s = absurd (omega arith)
    erase_virtual_gone w (suc rounds) v nodes h k s =
        let st = virtual_thread public_ip private_ip tid v in
        let left = erase-IsSorted (hasher.of_thread st) nodes s in
        elim (Bool-cases (nat_beq v w)) [
          | inl here ↦ erase_virtual-All _ rounds (v + 1) _ (
              subst
                (λ u.
                  All (λ n. n.0 ≢ hasher.of_thread (virtual_thread public_ip private_ip tid u))
                    (ConsistentHashMap.erase (hasher.of_thread st) nodes))
                ((nat_beq_iff v w).0 here) (erase_gone (hasher.of_thread st) nodes s))
          | inr later ↦ erase_virtual_gone w rounds (v + 1) _ (ground arith) (omega arith) left
        ]

    -- Every rejoin, join and repeated join keeps a ring consistent.
    pub insert-IsConsistent :
        (join_count : ℤ) (ring : HashRing)
        → IsConsistent ring
        → IsConsistent (insert hasher public_ip private_ip join_count tid ring).1
    unfolding insert id
    insert-IsConsistent join_count ring c =
        elim (Bool-cases (HashMap.contains (id first) servers)) [
          | inl known ↦
              elim (Bool-cases
                (ltb_ℤ (HashMap.at (pos 0) private_ip ring.server_join_count) join_count)) [
                  | inl again ↦
                      rw (known, again)
                        (record { sorted = c.sorted; placed = c.placed; servers = c.servers })
                  | inr stale ↦ rw (known, stale) c
                ]
          | inr new ↦ rw new (record {
            sorted = insert_virtual-IsSorted virtual_thread_num 0 ring.nodes c.sorted;
            placed =
                insert_virtual-All _ virtual_thread_num virtual_thread_num 0 ring.nodes
                  (λ w h. (
                    refl,
                    h,
                    ground (
                      arith,
                      HashMap.find-assign (id first) (id first) first servers,
                      ==_refl (id first),
                    ),
                  ))
                  (omega arith)
                  (All-mono (IsPlaced ring) _ ring.nodes
                    (λ n placed. (
                      placed.0,
                      placed.1,
                      ground
                          (arith, placed.2, HashMap.find-assign (id first) (id n.1) first servers),
                    ))
                    c.placed);
            servers = HashMap.assign-Distinct (id first) first servers c.servers;
          })
        ]
      where
        first : ServerThread
        first = virtual_thread public_ip private_ip tid 0

        servers : HashMap.HashMap Text ServerThread
        servers = ring.unique_servers

    abbrev HashesGone : List (ℕ × ServerThread) → Type 0
    HashesGone = All λ n.
        (w : ℕ)
        → w < virtual_thread_num
        → n.0 ≢ hasher.of_thread (virtual_thread public_ip private_ip tid w)

    gather :
        (nodes : List (ℕ × ServerThread))
        → ((w : ℕ)
            → w < virtual_thread_num
            → All (λ n. n.0 ≢ hasher.of_thread (virtual_thread public_ip private_ip tid w)) nodes)
        → HashesGone nodes
    gather [] h = tt
    gather (n ∷ nodes) h = (λ w k. (h w k).0, gather nodes (λ w k. (h w k).1))

    -- A node of the thread stands at one of the hashes that `remove` erases.
    node_hash :
        (ring : HashRing) (n : ℕ × ServerThread)
        → IsPlaced ring n
        → same_thread n.1 (virtual_thread public_ip private_ip tid 0) ≡ true
        → n.0 ≡ hasher.of_thread (virtual_thread public_ip private_ip tid n.1.virtual_num)
    unfolding virtual_id
    node_hash ring n placed same =
        let (ip, number) =
          (same_thread_iff n.1 (virtual_thread public_ip private_ip tid 0)).0 same in
        placed.0 ∙ rw (ip, number)

    Bool-false : (b : Bool) → ¬ (b ≡ true) → b ≡ false
    Bool-false true h = absurd (h refl)
    Bool-false false h = refl

    -- After `remove`, no virtual node of the thread is left on a consistent ring, so no key is
    -- looked up at it, whatever public address it joined with.
    pub remove-gone :
        (ring : HashRing)
        → IsConsistent ring
        → All
            (λ n. same_thread n.1 (virtual_thread public_ip private_ip tid 0) ≡ false)
            (remove hasher public_ip private_ip tid ring).nodes
    unfolding remove
    remove-gone ring c =
        let left = erase_virtual hasher public_ip private_ip tid virtual_thread_num 0 ring.nodes in
        All-mono _ _ left
          (λ n both.
            Bool-false _ λ same. both.1 n.1.virtual_num (both.0).1 (node_hash ring n both.0 same))
          (All-both (IsPlaced ring) _ left
            (erase_virtual-All (IsPlaced ring) virtual_thread_num 0 ring.nodes c.placed)
            (gather left λ w k.
              erase_virtual_gone w virtual_thread_num 0 ring.nodes (omega arith) (omega arith)
                c.sorted))

    still_there :
        (ring : HashRing)
        → IsConsistent ring
        → (n : ℕ × ServerThread) → HashMap.contains (id n.1) ring.unique_servers ≡ true
        → same_thread n.1 (virtual_thread public_ip private_ip tid 0) ≡ false
        → HashMap.contains
            (id n.1)
            (HashMap.erase (id (virtual_thread public_ip private_ip tid 0)) ring.unique_servers)
          ≡ true
    unfolding same_thread
    still_there ring c n there other =
        let first = virtual_thread public_ip private_ip tid 0 in
        ground (
          arith,
          there,
          HashMap.find-erase (id first) (id n.1) ring.unique_servers c.servers,
          other,
          ==_iff (id n.1) (id first),
          ==_iff (id first) (id n.1),
        )

    -- A departure keeps a ring consistent.
    pub remove-IsConsistent :
        (ring : HashRing)
        → IsConsistent ring
        → IsConsistent (remove hasher public_ip private_ip tid ring)
    unfolding remove
    remove-IsConsistent ring c =
        let first = virtual_thread public_ip private_ip tid 0 in
        let left = erase_virtual hasher public_ip private_ip tid virtual_thread_num 0 ring.nodes in
        record {
          sorted = erase_virtual-IsSorted virtual_thread_num 0 ring.nodes c.sorted;
          placed =
              All-mono _ _ left
                (λ n both. ((both.0).0, (both.0).1, still_there ring c n (both.0).2 both.1))
                (All-both (IsPlaced ring) _ left
                  (erase_virtual-All (IsPlaced ring) virtual_thread_num 0 ring.nodes c.placed)
                  (remove-gone ring c));
          servers = HashMap.erase-Distinct (id first) ring.unique_servers c.servers;
        }
