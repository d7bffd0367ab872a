-- ===== src/Route/Membership.antt =====
-- A routing thread's view of the membership: membership_handler.cpp and seed_handler.cpp of src/route.
pub mod Consistent
pub mod Follows
use anna.Prelude.{
  ℕ, zero, suc, ◌+◌, ◌-◌, ◌==◌, list_eq, nat_eq, nat_beq, Bool, true, false, Option, none, some,
  List, [], ◌∷◌, ◌++◌, map, if◌then◌else◌, ℤ,
}
use anna.Containers.HashMap
use anna.Containers.HashMap.{HashMap}
use anna.Text.{Text, codes, split}
use anna.Messages.{Net, send, text}
use anna.Metadata.{Tier, tier_eq, all_tiers}
use anna.Run.{Run, ok, fault, out_of_range, ◌>>=◌}
use anna.Threads.{ServerThread, node_join_connect_address, routing_notify_connect_address}
use anna.Ring.HashRing
use anna.Ring.HashRing.{HashRing, global_hasher}
use anna.Ring.Responsible.{Library, GlobalRingMap}
use anna.Kvs.Membership.{colon, Announced, announced, announced_count, set_ring}
use anna.Kvs.Redistribute.{tell_rings}
use anna.Route.{RoutingThread, Router}

-- `v[1] + ":" + v[2] + ":" + v[3] + ":" + v[4]`
unfoldable pub without_join : List Text → Text
without_join (v1 ∷ v2 ∷ v3 ∷ v4 ∷ rest) = v1 ++ colon ∷ (v2 ++ colon ∷ (v3 ++ colon ∷ v4))
without_join v = []

-- `for (unsigned tid = 1; tid < kRoutingThreadCount; tid++)`, by the rounds left
unfoldable pub tell_routers : Text → ℕ → ℕ → Text → Net → Net
tell_routers ip zero tid message net = net
tell_routers ip (suc rounds) tid message net =
    tell_routers ip rounds (tid + 1) message
      (send (routing_notify_connect_address ip tid) (text message) net)

-- `global_hash_rings[tier]`, as a look at its size leaves the map
abbrev pub open_ring : Tier → GlobalRingMap → GlobalRingMap
open_ring tier rings = set_ring tier (HashMap.at HashRing.empty tier rings) rings

unfoldable pub open_rings : List Tier → GlobalRingMap → GlobalRingMap
open_rings [] rings = rings
open_rings (tier ∷ tiers) rings = open_rings tiers (open_ring tier rings)

module _ (lib : Library) (routing_thread_count : ℕ) (rt : RoutingThread) where
  abbrev pub tell_own_threads : Text → Net → Net
  tell_own_threads serialized net =
      if nat_beq rt.tid 0
      then tell_routers rt.ip (routing_thread_count - 1) 1 serialized net
      else net

  -- What thread 0 sends when an insertion was new. `v` is the message behind its first part.
  unfoldable pub announce_join : Announced → List Text → Text → GlobalRingMap → Net → Net
  announce_join node v serialized rings net =
      if nat_beq rt.tid 0
      then tell_own_threads serialized
          (tell_rings node_join_connect_address (node.private_ip ∷ []) rings (without_join v) net)
      else net

  unfoldable pub take_join : Announced → List Text → Text → Router → Run Router
  take_join node v serialized r = do
    join_count ← announced_count v
    let (inserted, ring) =
        HashRing.insert (global_hasher lib.std_hash) node.public_ip node.private_ip join_count 0
          (HashMap.at HashRing.empty node.tier r.global_hash_rings)
    let rings = set_ring node.tier ring r.global_hash_rings
    ok (record r {
      global_hash_rings = rings;
      net = if inserted then announce_join node v serialized rings r.net else r.net;
    })

  unfoldable pub take_depart : Announced → Text → Router → Router
  take_depart node serialized r =
      let ring =
        HashRing.remove (global_hasher lib.std_hash) node.public_ip node.private_ip 0
          (HashMap.at HashRing.empty node.tier r.global_hash_rings) in
      record r {
        global_hash_rings = open_rings all_tiers (set_ring node.tier ring r.global_hash_rings);
        net = tell_own_threads serialized r.net;
      }

  unfoldable pub by_type : Text → Announced → List Text → Text → Router → Run Router
  by_type type node v serialized r =
      if type == codes "join"
      then take_join node v serialized r
      else if type == codes "depart"
      then ok (take_depart node serialized r)
      else ok r

  unfoldable pub take_parts : List Text → Text → Router → Run Router
  take_parts [] serialized r = fault out_of_range
  take_parts (type ∷ v) serialized r = do node ← announced v; by_type type node v serialized r

  unfoldable pub membership_handler : Text → Router → Run Router
  membership_handler serialized r = take_parts (split serialized colon) serialized r

-- ClusterMembership of include/proto/metadata.proto: the tiers with the public and private addresses
-- of their servers
abbrev pub ClusterMembership : Type 0
ClusterMembership = List (Tier × List (Text × Text))

abbrev pub addresses_of : HashMap Text ServerThread → List (Text × Text)
addresses_of servers = map (λ p. (p.1.public_ip, p.1.private_ip)) servers

-- The membership that the seed answers with, before protobuf serializes it.
unfoldable pub seed_handler : GlobalRingMap → ClusterMembership
seed_handler [] = []
seed_handler ((tier, ring) ∷ rings) = (tier, addresses_of ring.unique_servers) ∷ seed_handler rings
