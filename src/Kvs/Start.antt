-- ===== src/Kvs/Start.antt =====
-- The start of a server thread in src/kvs/server.cpp: the rings that it builds from what the seed
-- answered, and the notices of its join.
pub mod Seeded
use anna.Prelude.{
  ℕ, zero, suc, ◌+◌, ◌==◌, list_eq, nat_eq, nat_beq, Bool, true, false, Option, none, some, List,
  [], ◌∷◌, ◌++◌, map, if◌then◌else◌, ℤ, pos,
}
use anna.Containers.HashMap
use anna.Containers.HashMap.{HashMap}
use anna.Text.{Text, codes}
use anna.Messages.{Net}
use anna.Metadata.{Tier, tier_eq}
use anna.Threads.{
  ServerThread, node_join_connect_address, routing_notify_connect_address,
  monitoring_notify_connect_address,
}
use anna.Ring.HashRing
use anna.Ring.HashRing.{HashRing, global_hasher, local_hasher}
use anna.Ring.Responsible.{GlobalRingMap}
use anna.Route.Membership.{ClusterMembership}
use anna.Kvs.{Config}
use anna.Kvs.Membership.{colon, announcement, set_ring}
use anna.Kvs.Redistribute.{tell_rings, tell_all}

module _ (std_hash : Text → ℕ) where
  -- `for (const auto server : tier.servers())`
  unfoldable pub add_servers : List (Text × Text) → HashRing → HashRing
  add_servers [] ring = ring
  add_servers ((public_ip, private_ip) ∷ servers) ring =
      add_servers servers
        (HashRing.insert (global_hasher std_hash) public_ip private_ip (pos 0) 0 ring).1

  -- `for (const auto &tier : membership.tiers())`. A tier without servers is not looked up.
  unfoldable pub add_tiers : ClusterMembership → GlobalRingMap → GlobalRingMap
  add_tiers [] rings = rings
  add_tiers ((tier, []) ∷ membership) rings = add_tiers membership rings
  add_tiers ((tier, server ∷ servers) ∷ membership) rings =
      add_tiers membership (
        set_ring tier (add_servers (server ∷ servers) (HashMap.at HashRing.empty tier rings)) rings)

  -- `for (unsigned tid = 0; tid < tier.thread_number_; tid++)`, by the rounds left
  unfoldable pub add_threads : Text → Text → ℕ → ℕ → HashRing → HashRing
  add_threads public_ip private_ip zero tid ring = ring
  add_threads public_ip private_ip (suc rounds) tid ring =
      add_threads public_ip private_ip rounds (tid + 1)
        (HashRing.insert (local_hasher std_hash) public_ip private_ip (pos 0) tid ring).1

  -- `for (const auto &pair : kTierMetadata)`, with the number of threads of each tier
  unfoldable pub local_rings : Text → Text → List (Tier × ℕ) → GlobalRingMap → GlobalRingMap
  local_rings public_ip private_ip [] rings = rings
  local_rings public_ip private_ip ((tier, zero) ∷ tiers) rings =
      local_rings public_ip private_ip tiers rings
  local_rings public_ip private_ip ((tier, suc n) ∷ tiers) rings =
      local_rings public_ip private_ip tiers (
        set_ring tier
          (add_threads public_ip private_ip (suc n) 0 (HashMap.at HashRing.empty tier rings)) rings)

module _ (config : Config) where
  -- The global rings: those of the seed, and this server among them.
  unfoldable pub global_rings : ClusterMembership → GlobalRingMap
  global_rings membership =
      let rings = add_tiers config.lib.std_hash membership [] in
      set_ring config.self_tier
        (HashRing.insert (global_hasher config.lib.std_hash) config.wt.public_ip
          config.wt.private_ip config.self_join_count 0
          (HashMap.at HashRing.empty config.self_tier rings)).1
        rings

  -- "thread 0 notifies other servers that it has joined", where `count_str` is the answer of the
  -- management node, of which self_join_count is the number
  unfoldable pub tell_of_join : Text → GlobalRingMap → Net → Net
  tell_of_join count_str rings net =
      let msg =
        announcement config.self_tier config.wt.public_ip config.wt.private_ip
        ++ colon ∷ count_str in
      let join = codes "join:" ++ msg in
      if nat_beq config.wt.tid 0
      then tell_all monitoring_notify_connect_address config.monitoring_ips join (
          tell_all (λ ip. routing_notify_connect_address ip 0) config.routing_ips join
            (tell_rings node_join_connect_address (config.wt.private_ip ∷ []) rings msg net))
      else net
