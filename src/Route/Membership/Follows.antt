-- ===== src/Route/Membership/Follows.antt =====
-- The rings of a routing thread follow the joins and the departures that it hears of.
use anna.Prelude.{
  ◌==◌, ==_iff, ◌≡◌, refl, ◌∙◌, list_eq, nat_eq, Bool, not, ◌&&◌, ◌||◌, List, [], ◌∷◌, arith,
  Bool-cases, inl, inr, if◌then◌else◌, ℕ,
}
use anna.Containers.HashMap
use anna.Text.{Text, codes, split}
use anna.Metadata.{Tier, tier_eq, all_tiers}
use anna.Run.{ok, Ensures, returns, Ensures-if, Ensures-ok, Ensures-eq, Ensures-bind, Ensures-mono}
use anna.Threads.{id}
use anna.Ring.HashRing
use anna.Ring.HashRing.{HashRing, global_hasher, virtual_thread}
use anna.Ring.Responsible.{Library, GlobalRingMap}
use anna.Kvs.Membership.{colon, Announced, announced, announced_count, set_ring}
use anna.Kvs.Start.Seeded.{knows, contains-insert}
use anna.Route.{RoutingThread, Router}
use anna.Route.Membership.{
  open_rings, take_join, take_depart, by_type, take_parts, membership_handler,
}
use anna.Route.Membership.Consistent.{AllConsistent, membership_handler-AllConsistent}

-- Whether the server of the message is the one with this id, in this tier.
abbrev pub is_server : Announced → Tier → Text → Bool
is_server node tier i =
    node.tier == tier && id (virtual_thread node.public_ip node.private_ip 0 0) == i

-- What is known after a message of the type.
abbrev pub known_after : Text → Announced → Tier → Text → GlobalRingMap → Bool
known_after type node tier i rings =
    if type == codes "join"
    then is_server node tier i || knows tier i rings
    else if type == codes "depart"
    then not (is_server node tier i) && knows tier i rings
    else knows tier i rings

knows-set_ring :
    (tier t : Tier) (i : Text) (ring : HashRing) (rings : GlobalRingMap)
    → knows t i (set_ring tier ring rings)
      ≡ (if tier == t then HashMap.contains i ring.unique_servers else knows t i rings)
knows-set_ring tier t i ring rings = elim (Bool-cases (tier == t)) [
  | inl same ↦ rw (HashMap.find-assign tier t ring rings, same) refl
  | inr other ↦ rw (HashMap.find-assign tier t ring rings, other) refl
]

knows-open_rings :
    (tiers : List Tier) (t : Tier) (i : Text) (rings : GlobalRingMap)
    → knows t i (open_rings tiers rings) ≡ knows t i rings
unfolding open_rings
knows-open_rings [] t i rings = refl
knows-open_rings (tier ∷ tiers) t i rings =
    knows-open_rings tiers t i _
    ∙ knows-set_ring tier t i (HashMap.at HashRing.empty tier rings) rings
    ∙ elim (Bool-cases (tier == t)) [
      | inl same ↦ rw (same, (==_iff tier t).0 same) refl
      | inr other ↦ rw other refl
    ]

module _ (lib : Library) (routing_thread_count : ℕ) (rt : RoutingThread) where
  module _ (t : Tier) (i : Text) (node : Announced) (serialized : Text) (r : Router)
      (c : AllConsistent lib r.global_hash_rings) where
    join-follows :
        (v : List Text)
        → Ensures
            (λ r'.
              knows t i r'.global_hash_rings
              ≡ (is_server node t i || knows t i r.global_hash_rings))
            (take_join lib routing_thread_count rt node v serialized r)
    unfolding take_join
    join-follows v =
        Ensures-bind (λ _. Unit) (announced_count v) _ (Ensures-eq _ (λ _ _. tt))
          (λ join_count _. returns (
            knows-set_ring node.tier t i _ r.global_hash_rings
            ∙ elim (Bool-cases (node.tier == t)) [
              | inl same ↦
                  rw (same, ← (==_iff node.tier t).0 same)
                    (contains-insert (global_hasher lib.std_hash) node.public_ip node.private_ip i
                      join_count (HashMap.at HashRing.empty node.tier r.global_hash_rings))
              | inr other ↦ rw other refl
            ]))

    depart-follows :
        knows t i (take_depart lib routing_thread_count rt node serialized r).global_hash_rings
        ≡ (not (is_server node t i) && knows t i r.global_hash_rings)
    unfolding take_depart HashRing.remove
    depart-follows =
        knows-open_rings all_tiers t i _
        ∙ knows-set_ring node.tier t i _ r.global_hash_rings
        ∙ elim (Bool-cases (node.tier == t)) [
          | inl same ↦
              rw (same, ← (==_iff node.tier t).0 same)
                (let server = id (virtual_thread node.public_ip node.private_ip 0 0) in
                  let servers =
                    (HashMap.at HashRing.empty node.tier r.global_hash_rings).unique_servers in
                  ground (arith, HashMap.find-erase server i servers ((c node.tier).servers)))
          | inr other ↦ rw other refl
        ]

    by_type-follows :
        (type : Text) (v : List Text)
        → Ensures
            (λ r'. knows t i r'.global_hash_rings ≡ known_after type node t i r.global_hash_rings)
            (by_type lib routing_thread_count rt type node v serialized r)
    unfolding by_type
    by_type-follows type v =
        Ensures-if (type == codes "join") _ _
          (λ join. Ensures-mono _ (λ r' e. rw join e) (join-follows v))
          (λ other.
            Ensures-if (type == codes "depart") _ _
              (λ depart. returns (rw (other, depart) depart-follows))
              (λ neither. returns (rw (other, neither) refl)))

  -- A message with the parts `type` and `v`, of which the second announce the server `node`, that
  -- membership_handler of a routing thread handles: the ring of every tier stays consistent; after a
  -- join the ring of the tier of the server knows it, after a departure it does not, and of every
  -- other server, and after a message of another type, each ring knows what it knew.
  pub membership_handler-follows :
      (serialized type : Text) (v : List Text) (node : Announced) (r r' : Router)
      → AllConsistent lib r.global_hash_rings
      → split serialized colon ≡ type ∷ v
      → announced v ≡ ok node
      → membership_handler lib routing_thread_count rt serialized r ≡ ok r'
      → AllConsistent lib r'.global_hash_rings
        × ((t : Tier) (i : Text)
            → knows t i r'.global_hash_rings ≡ known_after type node t i r.global_hash_rings)
  unfolding membership_handler take_parts
  membership_handler-follows serialized type v node r r' c parts of_node h = (
    membership_handler-AllConsistent lib routing_thread_count rt serialized r r' c h,
    λ t i.
        Ensures-ok
          {P = λ q. knows t i q.global_hash_rings ≡ known_after type node t i r.global_hash_rings} _
          (rw (parts, of_node) (by_type-follows t i node serialized r c type v)) h,
  )
