-- ===== src/Route.antt =====
-- A routing thread: the handlers of src/route that answer which threads hold a key
-- (address_handler.cpp, replication_response_handler.cpp, replication_change_handler.cpp).
pub mod Answers
pub mod Membership
use anna.Prelude.{
  ℕ, zero, suc, ◌+◌, ◌-◌, ◌==◌, list_eq, nat_eq, nat_beq, ltb, Bool, true, false, Option, none,
  some, List, [], ◌∷◌, ◌++◌, map, length, if◌then◌else◌,
}
use anna.Containers.HashMap
use anna.Containers.HashMap.{HashMap}
use anna.Text.{Text}
use anna.Messages.{
  AnnaError, no_error, no_servers, KeyTuple, KeyResponse, KeyAddress, KeyAddressRequest,
  KeyAddressResponse, Net, send, address_response, text,
}
use anna.Metadata.{
  Tier, memory, tier_eq, all_tiers, KeyReplication, ReplicationFactor, is_metadata,
  get_key_from_metadata, set_replication, init_replication,
}
use anna.Run.{Run, ok, fault, out_of_range, ◌>>=◌}
use anna.Threads.{ServerThread, key_request_connect_address, connect}
use anna.Ring.HashRing
use anna.Ring.HashRing.{HashRing}
use anna.Ring.Responsible.{
  Library, GlobalRingMap, get_responsible_threads, issue_replication_factor_request,
}
use anna.Kvs.{push_back}

-- RoutingThread of include/kvs_threads.hpp
pub record RoutingThread : Type 0 where
  pub ip : Text
  pub tid : ℕ

-- kRoutingReplicationResponsePort and kRoutingReplicationChangePort
abbrev pub routing_replication_response_port : ℕ
routing_replication_response_port = 6500

abbrev pub routing_replication_change_port : ℕ
routing_replication_change_port = 6550

abbrev pub replication_response_connect_address : RoutingThread → Text
replication_response_connect_address rt = connect rt.ip rt.tid routing_replication_response_port

abbrev pub replication_change_connect_address : RoutingThread → Text
replication_change_connect_address rt = connect rt.ip rt.tid routing_replication_change_port

-- The variables of `run` in src/route/routing.cpp.
pub record Router : Type 0 where
  pub global_hash_rings : GlobalRingMap
  pub local_hash_rings : GlobalRingMap
  pub key_replication_map : HashMap Text KeyReplication
  -- for each key the address and the id of the requests that wait for its replication factor
  pub pending_requests : HashMap Text (List (Text × Text))
  pub net : Net

-- `num_servers += pair.second.size()`
unfoldable pub count_servers : GlobalRingMap → ℕ
count_servers [] = 0
count_servers ((tier, ring) ∷ rings) = length ring.nodes + count_servers rings

-- The tuple of a key without addresses.
abbrev pub no_address : Text → KeyAddress
no_address key = record { key = key; ips = [] }

abbrev pub with_addresses : Text → List ServerThread → KeyAddress
with_addresses key threads = record { key = key; ips = map key_request_connect_address threads }

-- `if (threads.size() > 0) break; if (!succeed) …`, and the next round otherwise
unfoldable pub next_tier :
    (List ServerThread × Bool) × Net
    → (Net → Run ((List ServerThread × Bool) × Net))
    → Run ((List ServerThread × Bool) × Net)
next_tier ((t ∷ threads, succeed), net) round = ok ((t ∷ threads, true), net)
next_tier (([], false), net) round = ok (([], false), net)
next_tier (([], true), net) round = round net

module _ (lib : Library) (rt : RoutingThread) where
  -- `for (const Tier &tier : kAllTiers)`: up to the first tier that has a thread for the key, or
  -- whose replication factor is not known. `metadata` is the argument of that name.
  unfoldable pub find_threads :
      Text → Bool → Router → List Tier → Net → Run ((List ServerThread × Bool) × Net)
  find_threads key metadata s [] net = ok (([], true), net)
  find_threads key metadata s (tier ∷ tiers) net = do
    found ←
        get_responsible_threads lib (replication_response_connect_address rt) key metadata
          s.global_hash_rings s.local_hash_rings s.key_replication_map (tier ∷ []) net
    next_tier found (find_threads key metadata s tiers)

  -- The addresses of the keys, or the key whose replication factor is missing; an empty key gets
  -- no address.
  unfoldable pub key_threads : Text → Router → Run ((List ServerThread × Bool) × Net)
  key_threads [] s = ok (([], true), s.net)
  key_threads (c ∷ key) s = do
    metadata ← is_metadata (c ∷ key)
    find_threads (c ∷ key) metadata s all_tiers s.net

  -- `pending_requests[key].push_back(…); return;`
  abbrev pub postpone : KeyAddressRequest → Text → Router → Router
  postpone req key s = record s {
    pending_requests = push_back key (req.response_address, req.request_id) s.pending_requests;
  }

  unfoldable pub next_key :
      KeyAddressRequest
      → Text
      → Router
      → (List ServerThread × Bool) × Net
      → (List ServerThread → Router → Run (Option (List KeyAddress) × Router))
      → Run (Option (List KeyAddress) × Router)
  next_key req key s ((threads, false), net) round =
      ok (none, postpone req key (record s { net = net }))
  next_key req key s ((threads, true), net) round = round threads (record s { net = net })

  -- `for (const Key &key : addr_request.keys())`, with the addresses so far; `none` where the
  -- handler returns early.
  unfoldable pub collect :
      KeyAddressRequest
      → List Text
      → Router
      → List KeyAddress
      → Run (Option (List KeyAddress) × Router)
  collect req [] s addresses = ok (some addresses, s)
  collect req (key ∷ keys) s addresses = do
    found ← key_threads key s
    next_key req key s found
        (λ threads s'. collect req keys s' (addresses ++ with_addresses key threads ∷ []))

  abbrev pub answer : KeyAddressRequest → AnnaError → List KeyAddress → Router → Router
  answer req error addresses s = record s {
    net =
        send req.response_address
          (address_response
            (record { addresses = addresses; error = error; response_id = req.request_id }))
          s.net;
  }

  -- `if (respond)`: set by the first address that is added
  unfoldable pub finish : KeyAddressRequest → Option (List KeyAddress) → Router → Router
  finish req none s = s
  finish req (some []) s = s
  finish req (some (a ∷ addresses)) s = answer req no_error (a ∷ addresses) s

  unfoldable pub address_handler : KeyAddressRequest → Router → Run Router
  address_handler req s =
      if nat_beq (count_servers s.global_hash_rings) 0
      then ok (answer req no_servers (map no_address req.keys) s)
      else (do (addresses, s') ← collect req req.keys s []; ok (finish req addresses s'))

  -- The responses to the requests that waited for one key.
  unfoldable pub answer_pending : Text → List ServerThread → List (Text × Text) → Net → Net
  answer_pending key threads [] net = net
  answer_pending key threads ((address, request_id) ∷ requests) net =
      answer_pending key threads requests (
        send address
          (address_response (record {
            addresses = with_addresses key threads ∷ [];
            error = no_error;
            response_id = request_id;
          }))
          net)

  -- `if (pending_requests.find(key) != pending_requests.end())`
  unfoldable pub drain : Text → Router → Option (List (Text × Text)) → Run Router
  drain key s none = ok s
  drain key s (some requests) = do found ← find_threads key false s all_tiers s.net; next found
    where
      next : (List ServerThread × Bool) × Net → Run Router
      next ((threads, false), net) = ok (record s { net = net })
      next ((threads, true), net) = ok (record s {
        net = answer_pending key threads requests net;
        pending_requests = HashMap.erase key s.pending_requests;
      })

  -- `parse` is what protobuf reads from a payload, `default_replication` that of each tier.
  module _ (parse : Text → ReplicationFactor) (default_replication : Tier → ℕ) where
    unfoldable pub take_factor : Text → KeyTuple → Router → AnnaError → Run Router
    take_factor key tuple s AnnaError.no_error =
        let s' : Router = record s {
          key_replication_map = set_replication key (parse tuple.payload) s.key_replication_map;
        } in
        drain key s' (HashMap.find key s'.pending_requests)
    take_factor key tuple s AnnaError.key_dne =
        let s' : Router = record s {
          key_replication_map =
              init_replication default_replication lib.default_local_replication key
                s.key_replication_map;
        } in
        drain key s' (HashMap.find key s'.pending_requests)
    take_factor key tuple s AnnaError.wrong_thread = do
      net ←
          issue_replication_factor_request lib (replication_response_connect_address rt) key
            (HashMap.at HashRing.empty memory s.global_hash_rings)
            (HashMap.at HashRing.empty memory s.local_hash_rings) s.net
      ok (record s { net = net })
    take_factor key tuple s error = ok s

    unfoldable pub replication_response_handler : KeyResponse → Router → Run Router
    replication_response_handler r s = handle_first r.tuples
      where
        handle_first : List KeyTuple → Run Router
        handle_first [] = fault out_of_range
        handle_first (tuple ∷ rest) =
            take_factor (get_key_from_metadata tuple.key) tuple s tuple.error

-- replication_change_handler: thread 0 passes the update on to the other threads of the node
-- (`serialized`, as it came), and every thread sets the factors.
unfoldable pub pass_on : Text → ℕ → ℕ → Text → Net → Net
pass_on ip tid zero serialized net = net
pass_on ip tid (suc left) serialized net = pass_on ip (tid + 1) left serialized (
    send (replication_change_connect_address (record { ip = ip; tid = tid })) (text serialized) net)

unfoldable pub set_all_replications :
    List ReplicationFactor → HashMap Text KeyReplication → HashMap Text KeyReplication
set_all_replications [] m = m
set_all_replications (key_rep ∷ updates) m =
    set_all_replications updates (set_replication key_rep.key key_rep m)

-- `count` is kRoutingThreadCount, and `updates` what protobuf reads from `serialized`.
unfoldable pub replication_change_handler :
    ℕ → RoutingThread → Text → List ReplicationFactor → Router → Router
replication_change_handler count rt serialized updates s = record s {
  net = if nat_beq rt.tid 0 then pass_on rt.ip 1 (count - 1) serialized s.net else s.net;
  key_replication_map = set_all_replications updates s.key_replication_map;
}
