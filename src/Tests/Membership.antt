-- ===== src/Tests/Membership.antt =====
-- Examples for what happens when nodes, replication factors and caches change.
use anna.Prelude.{
  ℕ, zero, suc, ◌≤◌, ◌==◌, ==_iff, ◌≡◌, refl, list_eq, nat_eq, arith, true, false, List, [], ◌∷◌,
  ◌||◌,
}
use anna.Containers.HashMap
use anna.Containers.HashMap.{HashMap}
use anna.Containers.HashSet
use anna.Text.{Text, codes, split, split_from, stoi, stoi_int}
use anna.Messages.{LatticeType, AnnaError, KeyTuple, KeyResponse, RequestType, empty_tuple}
use anna.Metadata.{memory, tier_eq, is_metadata, ReplicationFactor, no_replication}
use anna.Metadata.Names.{get_user_metadata_key, tier_parse}
use anna.Threads.{id, server_thread, gossip_connect_address}
use anna.Ring.HashRing
use anna.Ring.HashRing.{HashRing, virtual_thread}
use anna.Ring.Responsible.{GlobalRingMap}
use anna.Kvs.{Server}
use anna.Kvs.Membership.{node_join_handler}
use anna.Kvs.Membership.Moved.{Moves, on_rings_of, node_join-Moves}
use anna.Kvs.ReplicationChange.{replication_change_handler}
use anna.Kvs.ReplicationChange.Safe.{IsSafe, replication_change-IsSafe}
use anna.Kvs.Round.{gossip_round, redistribute}
use anna.Kvs.Round.Told.{IsPublished, gossip_round-IsPublished}
use anna.Kvs.Round.Done.{IsDone, redistribute-IsDone}
use anna.Kvs.Round.Stuck.{IsStuck, rounds, redistribute-IsStuck}
use anna.Kvs.Caches.{
  CacheMaps, maps_of, cache_ip_response_handler, management_node_response_handler,
}
use anna.Kvs.Caches.Linked.{Linked}
use anna.Kvs.Caches.Response.{cache_ip_response-Linked}
use anna.Kvs.Caches.Management.{IsManaged, management_node_response-IsManaged}
use anna.Kvs.Start.{global_rings}
use anna.Kvs.Start.Seeded.{knows, global_rings-knows}
use anna.Route.Membership.{seed_handler}
use anna.Kvs.Gossip.Passes.{value_of}
use anna.Prelude.{some}
use anna.Tests.Setup.{empty_stores, store, config, ip, server, state_after, is_ok, ends}

abbrev other_ip : Text
other_ip = codes "10.0.0.2"

-- A ring on which the key "k" is the other node's.
abbrev two_nodes : HashRing
two_nodes = record {
  nodes = (4, virtual_thread ip ip 0 0) ∷ (8, virtual_thread other_ip other_ip 0 0) ∷ [];
  unique_servers =
      (id (server_thread other_ip other_ip 0), virtual_thread other_ip other_ip 0 0) ∷ [];
  server_join_count = [];
}

-- A server that stores the key "k", which a cache holds.
abbrev pair_server : Server store.Store
pair_server = record server {
  global_hash_rings = (memory, two_nodes) ∷ [];
  stored_key_map = (codes "k", record { size = 1; type = LatticeType.set }) ∷ [];
  key_replication_map =
      (
        codes "k",
        record { global_replication = (memory, 1) ∷ []; local_replication = (memory, 1) ∷ [] },
      )
      ∷ [];
  local_changeset = codes "k" ∷ [];
  key_to_cache_ips = (codes "k", codes "10.0.0.7" ∷ []) ∷ [];
  store = record empty_stores { set = (codes "k", codes "v" ∷ []) ∷ [] };
}

-- What is sent under the key in the examples below.
pair_server-reads : value_of store pair_server (codes "k") ≡ some (codes "v")
unfolding value_of HashMap.find anna.Kvs.Memory.Laws.get_value anna.Kvs.Memory.memory_get
    anna.Kvs.KvStore.get
pair_server-reads = refl

abbrev rejoin : Text
rejoin = codes "MEMORY:10.0.0.2:10.0.0.2:1"

node_join_ends : is_ok (node_join_handler config rejoin pair_server) ≡ true
unfolding node_join_handler anna.Kvs.Membership.announced split tier_parse
    anna.Kvs.Membership.announced_count stoi_int stoi HashRing.insert HashMap.find id
    anna.Text.to_string anna.Kvs.Membership.take_in anna.Kvs.Membership.move_keys
    anna.Kvs.Redistribute.threads_for is_metadata anna.Ring.Responsible.get_responsible_threads
    anna.Ring.Responsible.responsible_global replication_change_handler
    anna.Kvs.ReplicationChange.change_keys anna.Kvs.ReplicationChange.change_key
    anna.Ring.ConsistentHashMap.find anna.Ring.Walk.walk anna.Ring.Walk.has
    anna.Ring.Responsible.responsible_local anna.Kvs.ReplicationChange.change_stored
    anna.Kvs.ReplicationChange.lower_locals anna.Metadata.set_local HashMap.assign gossip_round
    anna.Kvs.Redistribute.spread_keys anna.Kvs.Gossip.send_gossip anna.Kvs.Gossip.gather
    anna.Kvs.Redistribute.add_key_to anna.Kvs.Round.interested anna.Kvs.Round.others
    HashSet.contains HashSet.insert anna.Kvs.Membership.move_key anna.Kvs.Membership.rejoined
    anna.Kvs.Membership.spread_join anna.Kvs.Redistribute.add_key anna.Kvs.Redistribute.tell_rings
    anna.Kvs.Redistribute.tell_servers anna.Kvs.Redistribute.tell_workers
    anna.Messages.prepare_get_tuple anna.Metadata.get_metadata_key
    anna.Ring.ConsistentHashMap.insert anna.Ring.ConsistentHashMap.lower_bound
    HashRing.insert_virtual anna.Ring.Responsible.get_responsible_threads_metadata
    anna.Ring.Responsible.issue_replication_factor_request split_from anna.Threads.virtual_id
    anna.Kvs.ReplicationChange.lower_globals HashMap.erase HashSet.erase anna.Kvs.Drop.drop_key
    anna.Kvs.Gossip.add_keys anna.Kvs.Gossip.add_put anna.Kvs.Gossip.send_all
    anna.Kvs.Process.process_get anna.Kvs.ReplicationChange.compare_threads
    anna.Kvs.ReplicationChange.drop_keys anna.Kvs.ReplicationChange.new_threads
    anna.Messages.prepare_put_tuple anna.Metadata.set_global anna.Metadata.set_globals
    anna.Metadata.set_locals anna.Metadata.set_replication anna.Threads.same_thread
node_join_ends = refl

node_join-Moves_example :
    (let s' = state_after pair_server (node_join_handler config rejoin pair_server) in
      Moves config (on_rings_of config s' pair_server) s')
node_join-Moves_example =
    node_join-Moves config rejoin pair_server
      (state_after pair_server (node_join_handler config rejoin pair_server))
      (ends pair_server (node_join_handler config rejoin pair_server) node_join_ends)

abbrev updates : List ReplicationFactor
updates =
    record {
      key = codes "k";
      global = record { tier = memory; value = 1 } ∷ [];
      local = record { tier = memory; value = 1 } ∷ [];
    }
    ∷ []

replication_change_ends :
    is_ok (replication_change_handler store config [] updates pair_server) ≡ true
unfolding replication_change_handler anna.Kvs.ReplicationChange.change_keys
    anna.Kvs.ReplicationChange.change_key HashMap.find anna.Kvs.Redistribute.threads_for is_metadata
    split anna.Ring.Responsible.get_responsible_threads anna.Ring.Responsible.responsible_global
    anna.Ring.ConsistentHashMap.find anna.Ring.Walk.walk anna.Ring.Walk.has
    anna.Ring.Responsible.responsible_local anna.Kvs.ReplicationChange.change_stored
    anna.Kvs.ReplicationChange.lower_locals anna.Metadata.set_local HashMap.assign gossip_round
    anna.Kvs.Redistribute.spread_keys anna.Kvs.Gossip.send_gossip anna.Kvs.Gossip.gather
    anna.Kvs.Redistribute.add_key_to anna.Kvs.Round.interested anna.Kvs.Round.others
    anna.Kvs.ReplicationChange.lower_globals HashMap.erase HashSet.contains HashSet.erase
    HashSet.insert anna.Kvs.Drop.drop_key anna.Kvs.Gossip.add_keys anna.Kvs.Gossip.add_put
    anna.Kvs.Gossip.send_all anna.Kvs.Process.process_get anna.Kvs.Redistribute.add_key
    anna.Kvs.Redistribute.tell_workers anna.Kvs.ReplicationChange.compare_threads
    anna.Kvs.ReplicationChange.drop_keys anna.Kvs.ReplicationChange.new_threads
    anna.Messages.prepare_get_tuple anna.Messages.prepare_put_tuple anna.Metadata.get_metadata_key
    anna.Metadata.set_global anna.Metadata.set_globals anna.Metadata.set_locals
    anna.Metadata.set_replication anna.Ring.ConsistentHashMap.lower_bound
    anna.Ring.Responsible.get_responsible_threads_metadata
    anna.Ring.Responsible.issue_replication_factor_request split_from anna.Text.to_string id
    anna.Threads.virtual_id anna.Threads.same_thread
replication_change_ends = refl

replication_change-IsSafe_example :
    IsSafe store config updates pair_server
      (state_after pair_server (replication_change_handler store config [] updates pair_server))
unfolding HashMap.find
replication_change-IsSafe_example =
    replication_change-IsSafe store config [] updates pair_server
      (state_after pair_server (replication_change_handler store config [] updates pair_server))
      (refl, tt)
      (ends pair_server (replication_change_handler store config [] updates pair_server)
        replication_change_ends)

gossip_round_ends : is_ok (gossip_round store config pair_server) ≡ true
unfolding gossip_round anna.Kvs.Redistribute.spread_keys anna.Kvs.Redistribute.threads_for
    is_metadata split anna.Ring.Responsible.get_responsible_threads HashMap.find
    anna.Ring.Responsible.responsible_global anna.Ring.ConsistentHashMap.find anna.Ring.Walk.walk
    anna.Ring.Walk.has anna.Ring.Responsible.responsible_local anna.Kvs.Gossip.send_gossip
    anna.Kvs.Gossip.gather anna.Kvs.Redistribute.add_key_to anna.Kvs.Round.interested
    anna.Kvs.Round.others anna.Threads.same_thread HashMap.assign HashSet.contains HashSet.insert
    anna.Kvs.Gossip.add_keys anna.Kvs.Gossip.add_put anna.Kvs.Gossip.send_all
    anna.Kvs.Process.process_get anna.Kvs.Redistribute.add_key anna.Messages.prepare_get_tuple
    anna.Messages.prepare_put_tuple anna.Metadata.get_metadata_key
    anna.Ring.ConsistentHashMap.lower_bound anna.Ring.Responsible.get_responsible_threads_metadata
    anna.Ring.Responsible.issue_replication_factor_request split_from anna.Text.to_string id
    anna.Threads.virtual_id
gossip_round_ends = refl

gossip_round-IsPublished_example :
    IsPublished store config pair_server
      (state_after pair_server (gossip_round store config pair_server))
gossip_round-IsPublished_example =
    gossip_round-IsPublished store config pair_server
      (state_after pair_server (gossip_round store config pair_server)) refl
      (ends pair_server (gossip_round store config pair_server) gossip_round_ends)

-- A node has joined, and one key is to be sent to it and to be removed.
abbrev joined_server : Server store.Store
joined_server = record pair_server {
  join_gossip_map = (codes "tcp://10.0.0.2:6250", codes "k" ∷ []) ∷ [];
  join_remove_set = codes "k" ∷ [];
}

redistribute_ends : is_ok (redistribute store config joined_server) ≡ true
unfolding redistribute anna.Kvs.Gossip.send_gossip anna.Kvs.Gossip.gather anna.Kvs.Round.parts
    anna.Kvs.Round.add_all anna.Kvs.Round.take_keys HashSet.insert HashSet.contains
    anna.Kvs.Redistribute.add_key HashMap.assign anna.Kvs.Gossip.add_keys HashMap.find
    anna.Kvs.Round.erase_addresses anna.Kvs.Round.finished anna.Kvs.Round.erase_keys HashSet.erase
    anna.Ring.Responsible.get_responsible_threads_metadata anna.Ring.Responsible.responsible_global
    anna.Ring.ConsistentHashMap.find anna.Ring.Walk.walk anna.Ring.Walk.has
    anna.Ring.Responsible.responsible_local HashMap.erase anna.Kvs.Drop.drop_key
    anna.Kvs.Gossip.add_put anna.Kvs.Gossip.send_all anna.Kvs.Round.drop_all
    anna.Messages.prepare_put_tuple anna.Kvs.Process.process_get
redistribute_ends = refl

redistribute-IsDone_example :
    IsDone store config joined_server
      (state_after joined_server (redistribute store config joined_server))
unfolding HashMap.find HashSet.contains
redistribute-IsDone_example =
    redistribute-IsDone store config joined_server
      (state_after joined_server (redistribute store config joined_server)) refl
      (((refl, tt), omega arith), tt) (refl, tt)
      (ends joined_server (redistribute store config joined_server) redistribute_ends)

-- So many different keys, and that they are different.
abbrev different : ℕ → List Text
different zero = []
different (suc n) = (n ∷ []) ∷ different n

not_among : (n m : ℕ) → m ≤ n → HashSet.contains (n ∷ []) (different m) ≡ false
unfolding HashSet.contains
not_among n zero h = refl
not_among n (suc m) h = ground (arith, not_among n m (omega arith), ==_iff m n)

different-Distinct : (n : ℕ) → HashSet.Distinct (different n)
different-Distinct zero = tt
different-Distinct (suc n) = (not_among n n (omega arith), different-Distinct n)

abbrev crowded_server : Server store.Store
crowded_server = record joined_server {
  join_gossip_map = (codes "tcp://10.0.0.2:6250", different 51) ∷ [];
}

rounds_ends : is_ok (rounds store config 1 crowded_server) ≡ true
unfolding rounds redistribute anna.Kvs.Gossip.send_gossip anna.Kvs.Gossip.gather
    anna.Kvs.Round.parts anna.Kvs.Round.add_all anna.Kvs.Round.take_keys HashSet.insert
    HashSet.contains anna.Kvs.Redistribute.add_key HashMap.assign anna.Kvs.Gossip.add_keys
    HashMap.find anna.Kvs.Round.erase_addresses anna.Kvs.Round.finished anna.Kvs.Round.erase_keys
    HashSet.erase management_node_response_handler anna.Kvs.Caches.ask_caches
    anna.Kvs.Caches.insert_each anna.Ring.MetadataRequest.prepare_metadata_get_request
    anna.Ring.MetadataRequest.prepare_metadata_request
    anna.Ring.Responsible.get_responsible_threads_metadata anna.Ring.Responsible.responsible_global
    anna.Ring.ConsistentHashMap.find get_user_metadata_key anna.Ring.Walk.walk anna.Ring.Walk.has
    anna.Ring.Responsible.responsible_local anna.Ring.MetadataRequest.prepare_for
rounds_ends = refl

redistribute-IsStuck_example :
    IsStuck store config
      (codes "tcp://10.0.0.2:6250")
      (different 51)
      crowded_server
      (state_after crowded_server (rounds store config 1 crowded_server))
unfolding HashMap.find
redistribute-IsStuck_example =
    redistribute-IsStuck store config 1 (codes "tcp://10.0.0.2:6250") (different 51) crowded_server
      (state_after crowded_server (rounds store config 1 crowded_server)) (refl, tt) refl
      (different-Distinct 51) (omega arith)
      (ends crowded_server (rounds store config 1 crowded_server) rounds_ends)

no_caches : Linked (record { cache_ip_to_keys = []; key_to_cache_ips = [] })
unfolding HashMap.find HashSet.contains
no_caches = record {
  agree = λ ip key. refl;
  keys_once = λ ip. tt;
  ips_once = λ key. tt;
  caches_once = tt;
}

abbrev cache_response : KeyResponse
cache_response = record {
  type = RequestType.get;
  tuples =
      record (empty_tuple (get_user_metadata_key (codes "10.0.0.7"))) { payload = codes "k" } ∷ [];
  response_id = [];
  error = AnnaError.no_error;
}

cache_ip_response-Linked_example :
    Linked (maps_of (cache_ip_response_handler (λ t. t ∷ []) cache_response server))
cache_ip_response-Linked_example =
    cache_ip_response-Linked (λ t. t ∷ []) cache_response server no_caches

abbrev caching_server : Server store.Store
caching_server = record server { extant_caches = codes "10.0.0.7" ∷ [] }

management_ends :
    is_ok (management_node_response_handler config (codes "10.0.0.8" ∷ []) caching_server) ≡ true
unfolding management_node_response_handler anna.Kvs.Caches.ask_caches anna.Kvs.Caches.insert_each
    HashSet.insert HashSet.contains anna.Ring.MetadataRequest.prepare_metadata_get_request
    anna.Ring.MetadataRequest.prepare_metadata_request
    anna.Ring.Responsible.get_responsible_threads_metadata anna.Ring.Responsible.responsible_global
    anna.Ring.ConsistentHashMap.find HashMap.find get_user_metadata_key anna.Ring.Walk.walk
    anna.Ring.Walk.has anna.Ring.Responsible.responsible_local anna.Ring.MetadataRequest.prepare_for
    anna.Ring.Responsible.pick
management_ends = refl

management_node_response-IsManaged_example :
    IsManaged config (codes "10.0.0.8" ∷ []) caching_server (
      state_after caching_server
        (management_node_response_handler config (codes "10.0.0.8" ∷ []) caching_server))
unfolding HashSet.contains
management_node_response-IsManaged_example =
    management_node_response-IsManaged config (codes "10.0.0.8" ∷ []) caching_server
      (state_after caching_server
        (management_node_response_handler config (codes "10.0.0.8" ∷ []) caching_server))
      no_caches (refl, tt)
      (ends caching_server
        (management_node_response_handler config (codes "10.0.0.8" ∷ []) caching_server)
        management_ends)

abbrev seed_rings : GlobalRingMap
seed_rings = (memory, two_nodes) ∷ []

global_rings-knows_example :
    knows memory (codes "10.0.0.1:0") (global_rings config (seed_handler seed_rings)) ≡ (
      knows memory (codes "10.0.0.1:0") seed_rings
      || id (virtual_thread ip ip 0 0) == codes "10.0.0.1:0")
unfolding HashMap.find id
global_rings-knows_example =
    global_rings-knows config memory (codes "10.0.0.1:0") seed_rings ((refl, tt), tt) (refl, tt)
