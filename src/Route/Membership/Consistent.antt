-- ===== src/Route/Membership/Consistent.antt =====
-- The rings of a routing thread stay consistent, whatever joins and departs.
use anna.Prelude.{◌==◌, ◌≡◌, list_eq, nat_eq, List, [], ◌∷◌, Bool-cases, inl, inr}
use anna.Containers.HashMap
use anna.Text.{Text, codes, split}
use anna.Metadata.{Tier, tier_eq, all_tiers}
use anna.Run.{ok, Ensures, returns, faults, Ensures-if, Ensures-ok, Ensures-eq, Ensures-bind}
use anna.Ring.HashRing
use anna.Ring.HashRing.{HashRing, global_hasher}
use anna.Ring.HashRing.Membership.{IsConsistent, insert-IsConsistent, remove-IsConsistent}
use anna.Ring.Responsible.{Library, GlobalRingMap}
use anna.Kvs.Membership.{colon, Announced, announced, announced_count, set_ring}
use anna.Route.{RoutingThread, Router}
use anna.Route.Membership.{
  open_rings, take_join, take_depart, by_type, take_parts, membership_handler,
}

module _ (lib : Library) where
  -- The ring of every tier is consistent.
  abbrev pub AllConsistent : GlobalRingMap → Type 0
  AllConsistent rings =
      (tier : Tier) → IsConsistent lib.std_hash (HashMap.at HashRing.empty tier rings)

  pub set_ring-AllConsistent :
      (tier : Tier) (ring : HashRing) (rings : GlobalRingMap)
      → IsConsistent lib.std_hash ring
      → AllConsistent rings
      → AllConsistent (set_ring tier ring rings)
  set_ring-AllConsistent tier ring rings c h t = elim (Bool-cases (tier == t)) [
    | inl same ↦ rw (HashMap.find-assign tier t ring rings, same) c
    | inr other ↦ rw (HashMap.find-assign tier t ring rings, other) (h t)
  ]

  open_rings-AllConsistent :
      (tiers : List Tier) (rings : GlobalRingMap)
      → AllConsistent rings
      → AllConsistent (open_rings tiers rings)
  unfolding open_rings
  open_rings-AllConsistent [] rings h = h
  open_rings-AllConsistent (tier ∷ tiers) rings h =
      open_rings-AllConsistent tiers _ (set_ring-AllConsistent tier _ rings (h tier) h)

  module _ (routing_thread_count : _) (rt : RoutingThread) where
    take_join-AllConsistent :
        (node : Announced) (v : List Text) (serialized : Text) (r : Router)
        → AllConsistent r.global_hash_rings
        → Ensures
            (λ r'. AllConsistent r'.global_hash_rings)
            (take_join lib routing_thread_count rt node v serialized r)
    unfolding take_join
    take_join-AllConsistent node v serialized r h =
        Ensures-bind (λ _. Unit) (announced_count v) _ (Ensures-eq _ (λ _ _. tt))
          (λ join_count _. returns (
            set_ring-AllConsistent node.tier _ r.global_hash_rings
              (insert-IsConsistent lib.std_hash node.public_ip node.private_ip 0 join_count _
                (h node.tier))
              h))

    by_type-AllConsistent :
        (type : Text) (node : Announced) (v : List Text) (serialized : Text) (r : Router)
        → AllConsistent r.global_hash_rings
        → Ensures
            (λ r'. AllConsistent r'.global_hash_rings)
            (by_type lib routing_thread_count rt type node v serialized r)
    unfolding by_type take_depart
    by_type-AllConsistent type node v serialized r h =
        Ensures-if (type == codes "join") _ _ (λ _. take_join-AllConsistent node v serialized r h)
          (λ _.
            Ensures-if (type == codes "depart") _ _
              (λ _. returns (
                open_rings-AllConsistent all_tiers _ (
                  set_ring-AllConsistent node.tier _ r.global_hash_rings
                    (remove-IsConsistent lib.std_hash node.public_ip node.private_ip 0 _
                      (h node.tier))
                    h)))
              (λ _. returns h))

    take_parts-AllConsistent :
        (v : List Text) (serialized : Text) (r : Router)
        → AllConsistent r.global_hash_rings
        → Ensures
            (λ r'. AllConsistent r'.global_hash_rings)
            (take_parts lib routing_thread_count rt v serialized r)
    unfolding take_parts
    take_parts-AllConsistent [] serialized r h = faults
    take_parts-AllConsistent (type ∷ v) serialized r h =
        Ensures-bind (λ _. Unit) (announced v) _ (Ensures-eq _ (λ _ _. tt))
          (λ node _. by_type-AllConsistent type node v serialized r h)

    -- membership_handler of a routing thread, when it returns, keeps the ring of every tier
    -- consistent, for every message: joins, rejoins, departures, and messages of another type.
    pub membership_handler-AllConsistent :
        (serialized : Text) (r r' : Router)
        → AllConsistent r.global_hash_rings
        → membership_handler lib routing_thread_count rt serialized r ≡ ok r'
        → AllConsistent r'.global_hash_rings
    unfolding membership_handler
    membership_handler-AllConsistent serialized r r' h =
        Ensures-ok {P = λ r'. AllConsistent r'.global_hash_rings} _
          (take_parts-AllConsistent (split serialized colon) serialized r h)
