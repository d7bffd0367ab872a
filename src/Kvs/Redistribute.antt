-- ===== src/Kvs/Redistribute.antt =====
-- What the handlers that move keys to other threads share: the threads of a key, the map from
-- addresses to the keys that go there (AddressKeysetMap), and the messages that pass a change of the
-- membership on to the other threads of the node and to the other nodes.
pub mod Covers
use anna.Prelude.{
  ℕ, zero, suc, ◌+◌, ◌==◌, list_eq, nat_eq, Bool, true, false, ◌||◌, List, [], ◌∷◌, map,
  if◌then◌else◌,
}
use anna.Containers.HashMap
use anna.Containers.HashMap.{HashMap}
use anna.Containers.HashSet
use anna.Text.{Text}
use anna.Messages.{Net, send, text}
use anna.Metadata.{Tier, tier_eq, is_metadata}
use anna.Run.{Run, ok, ◌>>=◌}
use anna.Threads.{
  ServerThread, server_thread, gossip_connect_address, replication_response_connect_address,
}
use anna.Ring.HashRing.{HashRing}
use anna.Ring.Responsible.{GlobalRingMap, get_responsible_threads}
use anna.Kvs.{Config, Server}

-- AddressKeysetMap of include/kvs/server_utils.hpp
abbrev pub AddressKeysetMap : Type 0
AddressKeysetMap = HashMap Text (List Text)

-- `m[address].insert(key)`
unfoldable pub add_key : Text → Text → AddressKeysetMap → AddressKeysetMap
add_key key address m = HashMap.assign address (HashSet.insert key (HashMap.at [] address m)) m

-- The same for each of the addresses, as the loops over threads and caches do.
unfoldable pub add_key_to : Text → List Text → AddressKeysetMap → AddressKeysetMap
add_key_to key [] m = m
add_key_to key (address ∷ addresses) m = add_key_to key addresses (add_key key address m)

-- The gossip addresses of the threads.
abbrev pub gossip_addresses : List ServerThread → List Text
gossip_addresses = map gossip_connect_address

-- What get_responsible_threads returns: the threads, `succeed`, and what it may have sent.
abbrev pub Found : Type 0
Found = (List ServerThread × Bool) × Net

-- The call that all these handlers make, with `is_metadata(key)`.
unfoldable pub threads_for : {T : Type 0} → Config → List Tier → Text → Server T → Run Found
threads_for config tiers key s = do
  metadata ← is_metadata key
  get_responsible_threads config.lib (replication_response_connect_address config.wt) key metadata
      s.global_hash_rings s.local_hash_rings s.key_replication_map tiers s.net

-- A loop over keys that enters each under the addresses that `targets` names for it.
unfoldable pub spread_keys :
    {T : Type 0}
    → Config
    → List Tier
    → (Text → List ServerThread × Bool → List Text)
    → List Text
    → Server T × AddressKeysetMap
    → Run (Server T × AddressKeysetMap)
spread_keys config tiers targets [] p = ok p
spread_keys config tiers targets (key ∷ keys) (s, m) = do
  found ← threads_for config tiers key s
  spread_keys config tiers targets keys
      (record s { net = found.1 }, add_key_to key (targets key found.0) m)

-- The keys of a map, in the order in which it is visited.
abbrev pub keys_of : {V : Type 0} → HashMap Text V → List Text
keys_of = map (λ p. p.0)

-- `for (unsigned tid = 1; tid < kThreadNum; tid++)`, by the rounds left
unfoldable pub tell_workers : (ServerThread → Text) → ServerThread → ℕ → ℕ → Text → Net → Net
tell_workers address wt zero tid message net = net
tell_workers address wt (suc rounds) tid message net =
    tell_workers address wt rounds (tid + 1) message
      (send (address (server_thread wt.public_ip wt.private_ip tid)) (text message) net)

-- `for (const ServerThread &st : hash_ring.get_unique_servers())`, but for the private addresses in
-- the list
unfoldable pub tell_servers :
    (ServerThread → Text) → List Text → HashMap Text ServerThread → Text → Net → Net
tell_servers address skipped [] message net = net
tell_servers address skipped ((i, st) ∷ servers) message net =
    tell_servers address skipped servers message
      (if HashSet.contains st.private_ip skipped then net else send (address st) (text message) net)

-- `for (const auto &pair : global_hash_rings)`
unfoldable pub tell_rings : (ServerThread → Text) → List Text → GlobalRingMap → Text → Net → Net
tell_rings address skipped [] message net = net
tell_rings address skipped ((tier, ring) ∷ rings) message net =
    tell_rings address skipped rings message
      (tell_servers address skipped ring.unique_servers message net)

-- The loops over the addresses of the configuration.
unfoldable pub tell_all : (Text → Text) → List Text → Text → Net → Net
tell_all address [] message net = net
tell_all address (ip ∷ ips) message net =
    tell_all address ips message (send (address ip) (text message) net)
