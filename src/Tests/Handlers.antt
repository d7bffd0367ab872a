-- ===== src/Tests/Handlers.antt =====
-- Examples for the handlers of one server and of one routing thread.
use anna.Prelude.{
  ◌+◌, ◌≡◌, refl, list_eq, nat_eq, true, List, [], ◌∷◌, length, if◌then◌else◌, ◌⊎◌, inr,
}
use anna.Containers.HashMap
use anna.Containers.HashMap.{HashMap}
use anna.Containers.HashSet
use anna.Text.{Text, codes, split, to_string}
use anna.Messages.{
  LatticeType, RequestType, AnnaError, no_error, KeyTuple, KeyResponse, KeyAddressRequest,
  empty_tuple,
}
use anna.Metadata.{
  init_replication, set_global, set_local, is_metadata, memory, tier_eq, KeyReplication,
  ReplicationFactor, get_metadata_key, get_key_from_metadata,
}
use anna.Threads.{id, same_thread}
use anna.Ring.Walk.{has, walk}
use anna.Ring.ConsistentHashMap
use anna.Kvs.Process.{process_put, put_value, mismatch, count_access}
use anna.Ring.Responsible.{
  get_responsible_threads, get_responsible_threads_metadata, responsible_global, responsible_local,
}
use anna.Kvs.{Server}
use anna.Kvs.UserRequest.{
  handle_tuples, handle_tuple, place, serve, accept_put, user_request_handler,
}
use anna.Kvs.UserRequest.Types.{user_request-Evolves, handle_tuples-counted, waiting}
use anna.Kvs.Effects.{Evolves}
use anna.Kvs.Gossip.{
  gossip_handler, gossip_tuples, gossip_tuple, absorb, gossip_mismatch, place_gossip,
}
use anna.Kvs.Gossip.Silent.{Quiet, gossip_handler-Quiet}
use anna.Kvs.Primary.{
  is_primary_replica, at_owners, read_global, has_upper_tier_replica,
  is_primary_replica-same_thread,
}
use anna.Kvs.Replication.{
  replication_response_handler, take_factor, drain, drain_requests, drain_gossip, settle_all,
  settle,
}
use anna.Kvs.Replication.Drained.{Drains, replication_response-Drains}
use anna.Kvs.Memory.{set_class, memory_get, memory_put}
use anna.Kvs.Memory.Laws.{memory_get-put}
use anna.Route.{
  RoutingThread, Router, address_handler, count_servers, collect, key_threads, find_threads,
  next_tier, next_key,
}
use anna.Route.Answers.{IsAnswered, IsPostponed, address_handler-answers}
use anna.Tests.Setup.{
  plain, store, lib, config, one_node, quiet_net, server, put_request, state_after, is_ok, ends,
}

memory_get-put_example :
    (let v = (set_class plain).merge [] ((set_class plain).deserialize (codes "x")) in
      ((memory_put (set_class plain) (codes "k") (codes "x") []).0 ≡ (set_class plain).size v)
      × ((memory_get
            (set_class plain)
            (codes "k")
            (memory_put (set_class plain) (codes "k") (codes "x") []).1).0
          ≡ (
            (set_class plain).serialize v,
            if (set_class plain).is_empty v then AnnaError.key_dne else no_error,
          )))
unfolding HashMap.find
memory_get-put_example = memory_get-put (set_class plain) (codes "k") (codes "x") []

put_request-ends : is_ok (user_request_handler store config put_request server) ≡ true
unfolding user_request_handler handle_tuples handle_tuple place serve accept_put is_metadata split
    get_metadata_key get_responsible_threads get_responsible_threads_metadata responsible_global
    responsible_local walk ConsistentHashMap.find ConsistentHashMap.lower_bound HashMap.find has id
    process_put mismatch to_string
put_request-ends = refl

user_request-Evolves_example :
    Evolves server (state_after server (user_request_handler store config put_request server))
user_request-Evolves_example =
    user_request-Evolves store config put_request server
      (state_after server (user_request_handler store config put_request server))
      (ends server (user_request_handler store config put_request server) put_request-ends)

put_tuples-ends :
    is_ok (handle_tuples store config put_request put_request.tuples (server, [])) ≡ true
unfolding handle_tuples handle_tuple place serve accept_put is_metadata split get_metadata_key
    get_responsible_threads get_responsible_threads_metadata responsible_global responsible_local
    walk ConsistentHashMap.find ConsistentHashMap.lower_bound HashMap.find has id process_put
    mismatch to_string
put_tuples-ends = refl

abbrev put_progress : Server store.Store × List KeyTuple
put_progress =
    state_after (server, [])
      (handle_tuples store config put_request put_request.tuples (server, []))

handle_tuples-counted_example :
    length put_progress.1 + waiting put_progress.0.pending_requests
    ≡ waiting server.pending_requests + length put_request.tuples
handle_tuples-counted_example =
    handle_tuples-counted store config put_request server put_progress.0 put_progress.1 (
      ends (server, []) (handle_tuples store config put_request put_request.tuples (server, []))
        put_tuples-ends)

gossip-ends : is_ok (gossip_handler store config put_request server) ≡ true
unfolding gossip_handler gossip_tuples gossip_tuple place_gossip absorb gossip_mismatch is_metadata
    split get_metadata_key get_responsible_threads get_responsible_threads_metadata
    responsible_global responsible_local walk ConsistentHashMap.find ConsistentHashMap.lower_bound
    HashMap.find has id process_put mismatch to_string
gossip-ends = refl

gossip_handler-Quiet_example :
    Quiet server (state_after server (gossip_handler store config put_request server))
gossip_handler-Quiet_example =
    gossip_handler-Quiet store config put_request server
      (state_after server (gossip_handler store config put_request server))
      (ends server (gossip_handler store config put_request server) gossip-ends)

-- A client's PUT of "k" that waits for the replication factor, which is not stored.
abbrev waiting_server : Server store.Store
waiting_server = record server {
  pending_requests =
      (
        codes "k",
        record {
          type = RequestType.put;
          lattice_type = LatticeType.lww;
          payload = codes "v";
          addr = codes "tcp://10.0.0.9:6800";
          response_id = codes "7";
        }
            ∷ [],
      )
      ∷ [];
}

abbrev absent_tuple : KeyTuple
absent_tuple = record (empty_tuple (get_metadata_key (codes "k"))) { error = AnnaError.key_dne }

abbrev absent_response : KeyResponse
absent_response = record {
  type = RequestType.get;
  tuples = absent_tuple ∷ [];
  response_id = [];
  error = no_error;
}

abbrev no_factors : Text → ReplicationFactor
no_factors t = record { key = []; global = []; local = [] }

absent-ends :
    is_ok (replication_response_handler store config no_factors absent_response waiting_server)
    ≡ true
unfolding replication_response_handler take_factor drain drain_requests drain_gossip settle_all
    settle init_replication set_global set_local get_key_from_metadata serve accept_put
    HashMap.assign HashMap.erase HashSet.insert put_value count_access is_metadata split
    get_metadata_key get_responsible_threads get_responsible_threads_metadata responsible_global
    responsible_local walk ConsistentHashMap.find ConsistentHashMap.lower_bound HashMap.find has id
    process_put mismatch to_string
absent-ends = refl

replication_response-Drains_example :
    Drains (get_key_from_metadata absent_tuple.key) waiting_server (
      state_after waiting_server
        (replication_response_handler store config no_factors absent_response waiting_server))
unfolding HashMap.find
replication_response-Drains_example =
    replication_response-Drains store config no_factors absent_response absent_tuple []
      waiting_server
      (state_after waiting_server
        (replication_response_handler store config no_factors absent_response waiting_server))
      refl (inr refl) (refl, tt) tt
      (ends waiting_server
        (replication_response_handler store config no_factors absent_response waiting_server)
        absent-ends)

abbrev rt : RoutingThread
rt = record { ip = codes "10.0.0.5"; tid = 0 }

abbrev router : Router
router = record {
  global_hash_rings = (memory, one_node) ∷ [];
  local_hash_rings = (memory, one_node) ∷ [];
  key_replication_map = [];
  pending_requests = [];
  net = quiet_net;
}

abbrev address_request : KeyAddressRequest
address_request = record {
  response_address = codes "tcp://10.0.0.9:6850";
  keys = get_metadata_key (codes "k") ∷ [];
  request_id = codes "8";
}

address-ends : is_ok (address_handler lib rt address_request router) ≡ true
unfolding address_handler count_servers collect key_threads find_threads next_tier next_key
    is_metadata split get_metadata_key get_responsible_threads get_responsible_threads_metadata
    responsible_global responsible_local walk ConsistentHashMap.find ConsistentHashMap.lower_bound
    HashMap.find has id process_put mismatch to_string
address-ends = refl

address_handler-answers_example :
    IsAnswered lib rt address_request router
      (state_after router (address_handler lib rt address_request router))
    ⊎ IsPostponed lib rt address_request router
        (state_after router (address_handler lib rt address_request router))
address_handler-answers_example =
    address_handler-answers lib rt address_request router
      (state_after router (address_handler lib rt address_request router)) (λ e. cc)
      (ends router (address_handler lib rt address_request router) address-ends)

-- One copy of "k" in memory.
abbrev one_copy : HashMap Text KeyReplication
one_copy =
    (
      codes "k",
      record { global_replication = (memory, 1) ∷ []; local_replication = (memory, 1) ∷ [] },
    )
    ∷ []

wt-primary :
    (is_primary_replica lib memory
      (codes "k")
      one_copy
      router.global_hash_rings
      router.local_hash_rings
      config.wt).0
    ≡ true
unfolding is_primary_replica at_owners read_global ConsistentHashMap.find
    ConsistentHashMap.lower_bound HashMap.find has_upper_tier_replica
wt-primary = refl

is_primary_replica-same_thread_example : same_thread config.wt config.wt ≡ true
is_primary_replica-same_thread_example =
    is_primary_replica-same_thread lib memory (codes "k") one_copy one_copy router.global_hash_rings
      router.local_hash_rings config.wt config.wt wt-primary wt-primary
