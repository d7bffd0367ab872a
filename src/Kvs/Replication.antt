-- ===== src/Kvs/Replication.antt =====
-- replication_response_handler of src/kvs/replication_response_handler.cpp: the answer to a request
-- for the replication factor of a key, and the requests and the gossip that waited for it.
pub mod Steps
pub mod Drained
use anna.Prelude.{
  ℕ, ◌+◌, ◌==◌, list_eq, nat_eq, Bool, true, false, not, ◌&&◌, Option, none, some, List, [], ◌∷◌,
  ◌++◌, if◌then◌else◌,
}
use anna.Containers.HashMap
use anna.Text.{Text}
use anna.Messages.{
  LatticeType, RequestType, AnnaError, KeyTuple, empty_tuple, KeyResponse, response, Net, send,
  type_beq, no_error,
}
use anna.Metadata.{
  Tier, memory, tier_eq, is_metadata, get_key_from_metadata, ReplicationFactor, set_replication,
  init_replication,
}
use anna.Run.{Run, ok, fault, out_of_range, ◌>>=◌}
use anna.Threads.{ServerThread, id, gossip_connect_address, replication_response_connect_address}
use anna.Ring.HashRing
use anna.Ring.Walk.{has}
use anna.Ring.Responsible.{get_responsible_threads, issue_replication_factor_request}
use anna.Kvs.{Serializers, PendingRequest, PendingGossip, Config, Server}
use anna.Kvs.Process.{process_put, mismatch, count_access}
use anna.Kvs.UserRequest.{serve, accept_put}
use anna.Kvs.Gossip.{GossipMap, opened, add_put, send_all}

-- `response.tuples(0)`
abbrev first_tuple : List KeyTuple → Run KeyTuple
first_tuple [] = fault out_of_range
first_tuple (tuple ∷ rest) = ok tuple

-- The branch `else` takes every request that is not a GET for a PUT.
abbrev pub get_or_put : RequestType → RequestType
get_or_put RequestType.get = RequestType.get
get_or_put type = RequestType.put

-- Reading the clock, where nothing uses the time.
abbrev pub tick : {T : Type 0} → Server T → Server T
tick s = record s { net = record s.net { ticks = s.net.ticks + 1 } }

-- The messages that forward the gossip of one key: to each thread every value that waited.
unfoldable pub add_puts : Text → Text → List PendingGossip → GossipMap → GossipMap
add_puts address key [] gossip_map = gossip_map
add_puts address key (g ∷ gossip) gossip_map =
    add_puts address key gossip (add_put address key g.lattice_type g.payload gossip_map)

unfoldable pub forward_pending :
    Text → List PendingGossip → List ServerThread → GossipMap → GossipMap
forward_pending key gossip [] gossip_map = gossip_map
forward_pending key gossip (thread ∷ threads) gossip_map =
    let address = gossip_connect_address thread in
    forward_pending key gossip threads (
      add_puts address key gossip
        (HashMap.assign address (opened (HashMap.find address gossip_map)) gossip_map))

-- `parse` is what protobuf reads from a payload: an LWWValue, and in its value a ReplicationFactor.
module _ (S : Serializers) (config : Config) (parse : Text → ReplicationFactor) where
  -- The response to a request that waited, with its one tuple.
  abbrev reply : PendingRequest → KeyTuple → Server S.Store → Server S.Store
  reply request tp s = record s {
    net =
        send request.addr
          (response (record {
            type = request.type;
            tuples = tp ∷ [];
            response_id = request.response_id;
            error = no_error;
          }))
          s.net;
  }

  abbrev waiting_tuple : Text → PendingRequest → KeyTuple
  waiting_tuple key request = record (empty_tuple key) {
    lattice_type = request.lattice_type;
    payload = request.payload;
  }

  -- A request that expects no response and that this thread is responsible for.
  unfoldable pub settle_silently :
      Text → PendingRequest → Server S.Store → RequestType → Run (Server S.Store)
  settle_silently key request s RequestType.put =
      if type_beq request.lattice_type LatticeType.none
      then ok (tick s)
      else if mismatch key request.lattice_type s.stored_key_map
      then ok (tick s)
      else (do
        (s', tp) ← accept_put S config (waiting_tuple key request) s
        ok (count_access config key s'))
  settle_silently key request s type = ok (tick s)

  -- One round of the loop over `pending_requests[key]`, by whether this thread is responsible and
  -- whether the request has no address to answer to.
  unfoldable pub settle :
      Text → PendingRequest → Server S.Store → Bool → Bool → Run (Server S.Store)
  settle key request s false true = ok (tick s)
  settle key request s false false =
      ok (tick (reply request (record (empty_tuple key) { error = AnnaError.wrong_thread }) s))
  settle key request s true true = settle_silently key request s request.type
  settle key request s true false = do
    (s', tp) ← serve S config (get_or_put request.type) (waiting_tuple key request) s
    ok (reply request tp (count_access config key s'))

  unfoldable pub settle_all :
      Text → Bool → List PendingRequest → Server S.Store → Run (Server S.Store)
  settle_all key responsible [] s = ok s
  settle_all key responsible (request ∷ requests) s =
      settle key request s responsible (request.addr == []) >>= settle_all key responsible requests

  -- `if (succeed)` around the loop
  abbrev settle_if :
      Text
      → List PendingRequest
      → (List ServerThread × Bool) × Net
      → Server S.Store
      → Run (Server S.Store)
  settle_if key requests ((threads, false), net) s = ok (record s { net = net })
  settle_if key requests ((threads, true), net) s =
      settle_all key (has id config.wt threads) requests (record s { net = net })

  abbrev responsible_threads : Text → Server S.Store → Run ((List ServerThread × Bool) × Net)
  responsible_threads key s = do
    metadata ← is_metadata key
    get_responsible_threads config.lib (replication_response_connect_address config.wt) key metadata
        s.global_hash_rings s.local_hash_rings s.key_replication_map (config.self_tier ∷ []) s.net

  -- `if (pending_requests.find(key) != pending_requests.end())`
  unfoldable pub drain_requests :
      Text → Server S.Store → Option (List PendingRequest) → Run (Server S.Store)
  drain_requests key s none = ok s
  drain_requests key s (some requests) = do
    found ← responsible_threads key s
    s' ← settle_if key requests found s
    ok (record s' { pending_requests = HashMap.erase key s'.pending_requests })

  -- The loop over `pending_gossip[key]` of a responsible thread.
  unfoldable pub absorb_pending : Text → List PendingGossip → Server S.Store → Run (Server S.Store)
  absorb_pending key [] s = ok s
  absorb_pending key (g ∷ gossip) s =
      (if mismatch key g.lattice_type s.stored_key_map
        then ok s
        else process_put S key g.lattice_type g.payload s)
      >>= absorb_pending key gossip

  abbrev gossip_if :
      Text
      → List PendingGossip
      → (List ServerThread × Bool) × Net
      → Server S.Store
      → Run (Server S.Store)
  gossip_if key gossip ((threads, false), net) s = ok (record s { net = net })
  gossip_if key gossip ((threads, true), net) s =
      if has id config.wt threads
      then absorb_pending key gossip (record s { net = net })
      else ok (record s { net = send_all (forward_pending key gossip threads []) net })

  unfoldable pub drain_gossip :
      Text → Server S.Store → Option (List PendingGossip) → Run (Server S.Store)
  drain_gossip key s none = ok s
  drain_gossip key s (some gossip) = do
    found ← responsible_threads key s
    s' ← gossip_if key gossip found s
    ok (record s' { pending_gossip = HashMap.erase key s'.pending_gossip })

  -- What follows once the replication factor is set.
  unfoldable pub drain : Text → Server S.Store → Run (Server S.Store)
  drain key s = do
    s' ← drain_requests key s (HashMap.find key s.pending_requests)
    drain_gossip key s' (HashMap.find key s'.pending_gossip)

  -- By the error of the tuple.
  unfoldable pub take_factor : Text → KeyTuple → Server S.Store → AnnaError → Run (Server S.Store)
  take_factor key tuple s AnnaError.no_error = drain key (record s {
    key_replication_map = set_replication key (parse tuple.payload) s.key_replication_map;
  })
  take_factor key tuple s AnnaError.key_dne = drain key (record s {
    key_replication_map =
        init_replication config.default_replication config.lib.default_local_replication key
          s.key_replication_map;
  })
  take_factor key tuple s AnnaError.wrong_thread = do
    net ←
        issue_replication_factor_request config.lib (replication_response_connect_address config.wt)
          key (HashMap.at HashRing.empty memory s.global_hash_rings)
          (HashMap.at HashRing.empty memory s.local_hash_rings) s.net
    ok (record s { net = net })
  take_factor key tuple s error = ok s

  unfoldable pub replication_response_handler : KeyResponse → Server S.Store → Run (Server S.Store)
  replication_response_handler r s = do
    tuple ← first_tuple r.tuples
    take_factor (get_key_from_metadata tuple.key) tuple s tuple.error
