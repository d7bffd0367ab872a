-- ===== src/Kvs/Start/Seeded.antt =====
-- A server that starts from the seed's answer knows the servers that the seed knows, and itself.
use anna.Prelude.{
  ℕ, ◌==◌, ==_iff, ◌≡◌, refl, ap, ◌∙◌, list_eq, nat_eq, Bool, true, false, ◌||◌, ◌&&◌, Option, none,
  some, List, [], ◌∷◌, arith, if◌then◌else◌, ℤ, pos, All, Bool-cases, inl, inr, ltb_ℤ, or_comm,
}
use anna.Containers.HashMap
use anna.Containers.HashMap.{HashMap}
use anna.Text.{Text}
use anna.Metadata.{Tier, tier_eq}
use anna.Threads.{ServerThread, id}
use anna.Ring.HashRing
use anna.Ring.HashRing.{HashRing, Hasher, global_hasher, virtual_thread}
use anna.Ring.Responsible.{GlobalRingMap}
use anna.Route.Membership.{addresses_of, seed_handler}
use anna.Kvs.{Config}
use anna.Kvs.Membership.{set_ring}
use anna.Kvs.Start.{add_servers, add_tiers, global_rings}

-- The server stands under its id, as its thread 0.
abbrev pub IsServer : Text × ServerThread → Type 0
IsServer (i, st) = i ≡ id (virtual_thread st.public_ip st.private_ip 0 0)

-- Whether a server is known.
abbrev pub knows : Tier → Text → GlobalRingMap → Bool
knows tier i rings = HashMap.contains i (HashMap.at HashRing.empty tier rings).unique_servers

pub contains-insert :
    (hasher : Hasher) (public_ip private_ip i : Text) (join_count : ℤ) (ring : HashRing)
    → HashMap.contains i
        (HashRing.insert hasher public_ip private_ip join_count 0 ring).1.unique_servers
      ≡ (id (virtual_thread public_ip private_ip 0 0) == i
          || HashMap.contains i ring.unique_servers)
unfolding HashRing.insert
contains-insert hasher public_ip private_ip i join_count ring =
    let t = virtual_thread public_ip private_ip 0 0 in
    elim (Bool-cases (HashMap.contains (id t) ring.unique_servers)) [
      | inl known ↦
          elim (Bool-cases
            (ltb_ℤ (HashMap.at (pos 0) private_ip ring.server_join_count) join_count)) [
              | inl again ↦ rw (known, again) (ground (arith, known, ==_iff (id t) i))
              | inr stale ↦ rw (known, stale) (ground (arith, known, ==_iff (id t) i))
            ]
      | inr new ↦ rw new (ground (arith, HashMap.find-assign (id t) i t ring.unique_servers))
    ]

module _ (std_hash : Text → ℕ) where
  contains-add_servers :
      (i : Text) (servers : HashMap Text ServerThread) (ring : HashRing)
      → All IsServer servers
      → HashMap.contains i (add_servers std_hash (addresses_of servers) ring).unique_servers
        ≡ (HashMap.contains i ring.unique_servers || HashMap.contains i servers)
  unfolding add_servers HashMap.find
  contains-add_servers i [] ring h = ground arith
  contains-add_servers i ((j, st) ∷ servers) ring (e, h) =
      let ring' =
        (HashRing.insert (global_hasher std_hash) st.public_ip st.private_ip (pos 0) 0 ring).1 in
      contains-add_servers i servers ring' h
      ∙ rw (contains-insert (global_hasher std_hash) st.public_ip st.private_ip i (pos 0) ring, ← e)
          (by_cases (j == i) (HashMap.contains i ring.unique_servers) (HashMap.find i servers) st)
    where
      by_cases :
          (b c : Bool) (o : Option ServerThread) (st : ServerThread)
          → ((b || c) || HashMap.is_some o) ≡ (c || HashMap.is_some (if b then some st else o))
      by_cases true true o st = refl
      by_cases true false o st = refl
      by_cases false c o st = refl

  knows-set_ring :
      (t tier : Tier) (i : Text) (ring : HashRing) (rings : GlobalRingMap)
      → knows tier i (set_ring t ring rings)
        ≡ (if t == tier then HashMap.contains i ring.unique_servers else knows tier i rings)
  knows-set_ring t tier i ring rings = elim (Bool-cases (t == tier)) [
    | inl same ↦ rw (HashMap.find-assign t tier ring rings, same) refl
    | inr other ↦ rw (HashMap.find-assign t tier ring rings, other) refl
  ]

  -- A tier of the seed's answer.
  knows-add_tier :
      (t tier : Tier) (i : Text) (servers : HashMap Text ServerThread)
      (more : List (Tier × List (Text × Text))) (rings : GlobalRingMap)
      → All IsServer servers
      → (rings' : GlobalRingMap) × (add_tiers std_hash ((t, addresses_of servers) ∷ more) rings
          ≡ add_tiers std_hash more rings')
        × (knows tier i rings' ≡ (knows tier i rings || (t == tier && HashMap.contains i servers)))
  unfolding add_tiers HashMap.find
  knows-add_tier t tier i [] more rings h = (rings, refl, ground arith)
  knows-add_tier t tier i (s ∷ servers) more rings h =
      let ring =
        add_servers std_hash (addresses_of (s ∷ servers)) (HashMap.at HashRing.empty t rings) in
      (
        set_ring t ring rings,
        refl,
        knows-set_ring t tier i ring rings ∙ elim (Bool-cases (t == tier)) [
          | inl same ↦
              rw
                (
                  same,
                  contains-add_servers i (s ∷ servers) (HashMap.at HashRing.empty t rings) h,
                  (==_iff t tier).0 same,
                )
                refl
          | inr other ↦ rw other (or_false (knows tier i rings))
        ],
      )
    where
      or_false : (b : Bool) → b ≡ (b || false)
      or_false b = ground arith

  split_knows :
      (t tier : Tier) (i : Text) (ring : HashRing) (rings : GlobalRingMap)
      → HashMap.contains t rings ≡ false
      → knows tier i ((t, ring) ∷ rings)
        ≡ ((t == tier && HashMap.contains i ring.unique_servers) || knows tier i rings)
  unfolding HashMap.find
  split_knows t tier i ring rings d = elim (Bool-cases (t == tier)) [
    | inl same ↦
        rw (same, absent (HashMap.find tier rings) (rw (← (==_iff t tier).0 same) d)) (ground arith)
    | inr other ↦ rw other refl
  ]
    where
      absent : (o : Option HashRing) → HashMap.is_some o ≡ false → o ≡ none
      absent none h = refl
      absent (some r) h = cc

  knows-add_tiers :
      (tier : Tier) (i : Text) (rings acc : GlobalRingMap)
      → All (λ p. All IsServer p.1.unique_servers) rings
      → HashMap.Distinct rings
      → knows tier i (add_tiers std_hash (seed_handler rings) acc)
        ≡ (knows tier i acc || knows tier i rings)
  unfolding add_tiers seed_handler HashMap.find
  knows-add_tiers tier i [] acc h d = ground arith
  knows-add_tiers tier i ((t, ring) ∷ rings) acc (s, h) (new, d) =
      let (acc', e, k) = knows-add_tier t tier i ring.unique_servers (seed_handler rings) acc s in
      ap (λ r. knows tier i r) e
      ∙ (knows-add_tiers tier i rings acc' h d
          ∙ or_regroup _ _ _ k (split_knows t tier i ring rings new))
    where
      or_regroup : {a c : Bool} (b x y : Bool) → a ≡ (b || x) → c ≡ (x || y) → (a || y) ≡ (b || c)
      or_regroup b x y p q = ground arith

module _ (config : Config) where
  -- The rings of a server that starts from the seed's answer know, in each tier, the servers that the
  -- rings of the seed know and, in its own tier, this server; where in the seed's rings no tier
  -- stands twice and each server stands under the id of its thread 0.
  pub global_rings-knows :
      (tier : Tier) (i : Text) (rings : GlobalRingMap)
      → All (λ p. All IsServer p.1.unique_servers) rings
      → HashMap.Distinct rings
      → knows tier i (global_rings config (seed_handler rings)) ≡ (
          knows tier i rings
          || (config.self_tier == tier
              && id (virtual_thread config.wt.public_ip config.wt.private_ip 0 0) == i))
  unfolding global_rings HashMap.find
  global_rings-knows tier i rings h d =
      let seeded = add_tiers config.lib.std_hash (seed_handler rings) [] in
      let none_yet : knows tier i seeded ≡ knows tier i rings =
        knows-add_tiers config.lib.std_hash tier i rings [] h d in
      knows-set_ring config.lib.std_hash config.self_tier tier i _ seeded
      ∙ elim (Bool-cases (config.self_tier == tier)) [
        | inl same ↦
            rw
              (
                same,
                contains-insert (global_hasher config.lib.std_hash) config.wt.public_ip
                    config.wt.private_ip i config.self_join_count
                    (HashMap.at HashRing.empty config.self_tier seeded),
                (==_iff config.self_tier tier).0 same,
              )
              (rw none_yet (or_comm _ (knows tier i rings)))
        | inr other ↦ rw (other, none_yet) (or_false (knows tier i rings))
      ]
    where
      or_false : (b : Bool) → b ≡ (b || false)
      or_false b = ground arith
