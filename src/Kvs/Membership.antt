-- ===== src/Kvs/Membership.antt =====
-- Joins and departures: node_join_handler.cpp, node_depart_handler.cpp and self_depart_handler.cpp of
-- src/kvs.
pub mod Moved
use anna.Prelude.{
  ℕ, zero, suc, ◌+◌, ◌-◌, ◌==◌, list_eq, nat_eq, nat_beq, Bool, true, false, not, ◌&&◌, Option,
  none, some, List, [], ◌∷◌, ◌++◌, if◌then◌else◌, ℤ, pos, negsuc,
}
use anna.Containers.HashMap
use anna.Containers.HashSet
use anna.Text.{Text, codes, split, stoi_int, int_to_string}
use anna.Messages.{Net, send, text}
use anna.Metadata.{Tier, tier_eq, tier_beq, all_tiers}
use anna.Metadata.Names.{tier_name, tier_parse}
use anna.Run.{Run, ok, fault, out_of_range, unparsed, or_fault, ◌>>=◌}
use anna.Threads.{
  ServerThread, server_thread, id, node_join_connect_address, node_depart_connect_address,
  self_depart_connect_address, gossip_connect_address, routing_notify_connect_address,
  monitoring_notify_connect_address,
}
use anna.Ring.HashRing
use anna.Ring.HashRing.{HashRing, global_hasher}
use anna.Ring.Responsible.{GlobalRingMap}
use anna.Ring.Walk.{has}
use anna.Kvs.{Serializers, Config, Server}
use anna.Kvs.Gossip.{send_gossip}
use anna.Kvs.Redistribute.{
  AddressKeysetMap, add_key, add_key_to, gossip_addresses, Found, threads_for, spread_keys, keys_of,
  tell_workers, tell_rings, tell_all,
}

abbrev pub colon : ℕ
colon = b':'

-- What the message of a join or a departure says: the tier and the addresses of the server.
pub record Announced : Type 0 where
  pub tier : Tier
  pub public_ip : Text
  pub private_ip : Text

-- `v[0]`, `v[1]` and `v[2]`, the first through `Tier_Parse`
unfoldable pub announced : List Text → Run Announced
announced (v0 ∷ v1 ∷ v2 ∷ rest) = do
  tier ← or_fault unparsed (tier_parse v0)
  ok (record { tier = tier; public_ip = v1; private_ip = v2 })
announced v = fault out_of_range

-- `stoi(v[3])`
unfoldable pub announced_count : List Text → Run ℤ
announced_count (v0 ∷ v1 ∷ v2 ∷ v3 ∷ rest) = or_fault unparsed (stoi_int v3)
announced_count v = fault out_of_range

-- "MEMORY:public:private", what the nodes announce themselves with
abbrev pub announcement : Tier → Text → Text → Text
announcement tier public_ip private_ip = tier_name tier ++ colon ∷ (public_ip ++ colon ∷ private_ip)

-- The ring of a tier, replaced in the map.
abbrev pub set_ring : Tier → HashRing → GlobalRingMap → GlobalRingMap
set_ring tier ring rings = HashMap.assign tier ring rings

-- The addresses of a rejoining node that are responsible for the key.
unfoldable pub rejoined : Text → List ServerThread → List Text
rejoined private_ip [] = []
rejoined private_ip (thread ∷ threads) =
    let rest = rejoined private_ip threads in
    if thread.private_ip == private_ip then gossip_connect_address thread ∷ rest else rest

module _ (config : Config) where
  -- `if (thread_id == 0)`
  abbrev pub as_first : (Net → Net) → Net → Net
  as_first act net = if nat_beq config.wt.tid 0 then act net else net

  abbrev pub tell_threads : (ServerThread → Text) → Text → Net → Net
  tell_threads address message net =
      tell_workers address config.wt (config.thread_num - 1) 1 message net

  -- What thread 0 sends when a node has joined: its own address to the new node, the message to the
  -- other nodes, and the message to the other threads of its node.
  unfoldable pub spread_join : Announced → Text → GlobalRingMap → Net → Net
  spread_join node serialized rings net = tell_threads node_join_connect_address serialized (
      tell_rings node_join_connect_address (config.wt.private_ip ∷ node.private_ip ∷ []) rings
        serialized
        (send (node_join_connect_address (server_thread node.public_ip node.private_ip 0))
          (text (
            announcement config.self_tier config.wt.public_ip config.wt.private_ip
            ++ colon ∷ int_to_string config.self_join_count))
          net))

  -- What the departing thread tells the monitor: public_ip + "_" + private_ip + "_" + tier
  abbrev pub departed_message : Text
  departed_message =
      config.wt.public_ip ++ b'_' ∷ (config.wt.private_ip ++ b'_' ∷ tier_name config.self_tier)

module _ {T : Type 0} (config : Config) where
  unfoldable pub node_depart_handler : Text → Server T → Run (Server T)
  node_depart_handler serialized s = do
    node ← announced (split serialized colon)
    let ring =
        HashRing.remove (global_hasher config.lib.std_hash) node.public_ip node.private_ip 0
          (HashMap.at HashRing.empty node.tier s.global_hash_rings)
    ok (record s {
      global_hash_rings = set_ring node.tier ring s.global_hash_rings;
      net = as_first config (tell_threads config node_depart_connect_address serialized) s.net;
    })

  -- The two situations in which the handler gossips a key to the joining node.
  unfoldable pub move_key : Text → ℤ → Text → List ServerThread → Server T → Server T
  move_key private_ip (pos zero) key threads s = if has id config.wt threads then s else record s {
    join_remove_set = HashSet.insert key s.join_remove_set;
    join_gossip_map = add_key_to key (gossip_addresses threads) s.join_gossip_map;
  }
  move_key private_ip (pos (suc n)) key threads s = record s {
    join_gossip_map = add_key_to key (rejoined private_ip threads) s.join_gossip_map;
  }
  move_key private_ip (negsuc n) key threads s = s

  -- `if (succeed)` around them
  abbrev pub move_found : Text → ℤ → Text → Found → Server T → Server T
  move_found private_ip join_count key ((threads, false), net) s = record s { net = net }
  move_found private_ip join_count key ((threads, true), net) s =
      move_key private_ip join_count key threads (record s { net = net })

  -- `for (const auto &key_pair : stored_key_map)`
  unfoldable pub move_keys : Text → ℤ → List Text → Server T → Run (Server T)
  move_keys private_ip join_count [] s = ok s
  move_keys private_ip join_count (key ∷ keys) s = do
    found ← threads_for config (config.self_tier ∷ []) key s
    move_keys private_ip join_count keys (move_found private_ip join_count key found s)

  -- What follows an insertion that was new.
  unfoldable pub take_in : Announced → ℤ → Text → Server T → Run (Server T)
  take_in node join_count serialized s =
      let s' : Server T = record s {
        net = as_first config (spread_join config node serialized s.global_hash_rings) s.net;
      } in
      if tier_beq node.tier config.self_tier
      then move_keys node.private_ip join_count (keys_of s.stored_key_map) s'
      else ok s'

  unfoldable pub node_join_handler : Text → Server T → Run (Server T)
  node_join_handler serialized s = do
    let v = split serialized colon
    node ← announced v
    join_count ← announced_count v
    let (inserted, ring) =
        HashRing.insert (global_hasher config.lib.std_hash) node.public_ip node.private_ip
          join_count 0 (HashMap.at HashRing.empty node.tier s.global_hash_rings)
    let s' = record s { global_hash_rings = set_ring node.tier ring s.global_hash_rings }
    if inserted then take_in node join_count serialized s' else ok s'

module _ (S : Serializers) (config : Config) where
  -- The notices of thread 0, on the rings that no longer have this node.
  unfoldable pub say_farewell : Text → GlobalRingMap → Net → Net
  say_farewell serialized rings net =
      let msg = announcement config.self_tier config.wt.public_ip config.wt.private_ip in
      let depart = codes "depart:" ++ msg in
      tell_threads config self_depart_connect_address serialized (
        tell_all monitoring_notify_connect_address config.monitoring_ips depart (
          tell_all (λ ip. routing_notify_connect_address ip 0) config.routing_ips depart
            (tell_rings node_depart_connect_address [] rings msg net)))

  -- `if (succeed)`: every thread of the key
  abbrev pub all_threads : Text → List ServerThread × Bool → List Text
  all_threads key (threads, false) = []
  all_threads key (threads, true) = gossip_addresses threads

  unfoldable pub self_depart_handler : Text → Server S.Store → Run (Server S.Store)
  self_depart_handler serialized s = do
    let ring =
        HashRing.remove (global_hasher config.lib.std_hash) config.wt.public_ip config.wt.private_ip
          0 (HashMap.at HashRing.empty config.self_tier s.global_hash_rings)
    let rings = set_ring config.self_tier ring s.global_hash_rings
    let s' = record s {
      global_hash_rings = rings;
      net = as_first config (say_farewell serialized rings) s.net;
    }
    (s'', addr_keyset_map) ←
        spread_keys config all_tiers all_threads (keys_of s.stored_key_map) (s', [])
    sent ← send_gossip S config addr_keyset_map s''
    ok (record sent { net = send serialized (text (departed_message config)) sent.net })
