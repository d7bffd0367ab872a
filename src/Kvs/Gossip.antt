-- ===== src/Kvs/Gossip.antt =====
-- gossip_handler of src/kvs/gossip_handler.cpp, and the messages with which it and send_gossip of
-- src/kvs/utils.cpp pass values on.
pub mod Silent
pub mod Keeps
pub mod Held
pub mod Sends
pub mod Passes
use anna.Prelude.{
  ℕ, ◌==◌, list_eq, nat_eq, Bool, true, false, not, ◌&&◌, Option, none, some, List, [], ◌∷◌, ◌++◌,
  if◌then◌else◌,
}
use anna.Containers.HashMap
use anna.Containers.HashMap.{HashMap}
use anna.Text.{Text}
use anna.Messages.{
  LatticeType, RequestType, KeyTuple, KeyRequest, Net, send, request, type_beq, prepare_put_tuple,
  empty_request, AnnaError,
}
use anna.Metadata.{memory, tier_eq, is_metadata}
use anna.Run.{Run, ok, ◌>>=◌}
use anna.Threads.{ServerThread, id, gossip_connect_address, replication_response_connect_address}
use anna.Ring.HashRing
use anna.Ring.Walk.{has}
use anna.Ring.Responsible.{get_responsible_threads, issue_replication_factor_request}
use anna.Kvs.{Serializers, KeyProperty, PendingGossip, Config, Server, push_back}
use anna.Kvs.Process.{process_put, process_get}

-- The messages by the address to which they will go. The source iterates over a hash table, whose
-- order is not specified: here it is the order in which the addresses came up.
abbrev pub GossipMap : Type 0
GossipMap = HashMap Text KeyRequest

-- `gossip_map[address]`, with its type set where it is new
abbrev pub opened : Option KeyRequest → KeyRequest
opened none = record empty_request { type = RequestType.put }
opened (some r) = r

unfoldable pub add_put : Text → Text → LatticeType → Text → GossipMap → GossipMap
add_put address key type payload gossip_map =
    HashMap.assign address
      (prepare_put_tuple (opened (HashMap.find address gossip_map)) key type payload) gossip_map

-- `for (const ServerThread &thread : threads)`
unfoldable pub forward : Text → LatticeType → Text → List ServerThread → GossipMap → GossipMap
forward key type payload [] gossip_map = gossip_map
forward key type payload (thread ∷ threads) gossip_map =
    forward key type payload threads
      (add_put (gossip_connect_address thread) key type payload gossip_map)

-- The loop at the end: each message goes out.
unfoldable pub send_all : GossipMap → Net → Net
send_all [] net = net
send_all ((address, r) ∷ gossip_map) net = send_all gossip_map (send address (request r) net)

-- `stored_key_map.find(key) != end && type_ != lattice_type`, without the test for NONE that the
-- other handlers make
unfoldable pub gossip_mismatch : Text → LatticeType → HashMap Text KeyProperty → Bool
gossip_mismatch key lattice_type stored_key_map = elim (HashMap.find key stored_key_map) [
  | none ↦ false
  | some p ↦ not (type_beq p.type lattice_type)
]

module _ (S : Serializers) (config : Config) where
  abbrev pub GossipProgress : Type 0
  GossipProgress = Server S.Store × GossipMap

  -- `pending_gossip[key].push_back(PendingGossip(…))`
  abbrev pub postpone_gossip : KeyTuple → Server S.Store → Server S.Store
  postpone_gossip tuple s = record s {
    pending_gossip =
        push_back tuple.key (record { lattice_type = tuple.lattice_type; payload = tuple.payload })
          s.pending_gossip;
  }

  unfoldable pub absorb : KeyTuple → Server S.Store → Run (Server S.Store)
  absorb tuple s =
      if gossip_mismatch tuple.key tuple.lattice_type s.stored_key_map
      then ok s
      else process_put S tuple.key tuple.lattice_type tuple.payload s

  unfoldable pub place_gossip :
      KeyTuple → Bool → List ServerThread → Bool → GossipProgress → Run GossipProgress
  place_gossip tuple metadata threads false (s, gossip_map) =
      ok (postpone_gossip tuple s, gossip_map)
  place_gossip tuple metadata threads true (s, gossip_map) =
      if has id config.wt threads
      then (do s' ← absorb tuple s; ok (s', gossip_map))
      else if metadata
      then ok (s, forward tuple.key tuple.lattice_type tuple.payload threads gossip_map)
      else (do
        net ←
            issue_replication_factor_request config.lib
              (replication_response_connect_address config.wt) tuple.key
              (HashMap.at HashRing.empty memory s.global_hash_rings)
              (HashMap.at HashRing.empty memory s.local_hash_rings) s.net
        ok (postpone_gossip tuple (record s { net = net }), gossip_map))

  -- One round of the loop over `gossip.tuples()`.
  unfoldable pub gossip_tuple : KeyTuple → GossipProgress → Run GossipProgress
  gossip_tuple tuple (s, gossip_map) = do
    metadata ← is_metadata tuple.key
    ((threads, succeed), net) ←
        get_responsible_threads config.lib (replication_response_connect_address config.wt)
          tuple.key metadata s.global_hash_rings s.local_hash_rings s.key_replication_map
          (config.self_tier ∷ []) s.net
    place_gossip tuple metadata threads succeed (record s { net = net }, gossip_map)

  unfoldable pub gossip_tuples : List KeyTuple → GossipProgress → Run GossipProgress
  gossip_tuples [] p = ok p
  gossip_tuples (tuple ∷ rest) p = gossip_tuple tuple p >>= gossip_tuples rest

  unfoldable pub gossip_handler : KeyRequest → Server S.Store → Run (Server S.Store)
  gossip_handler gossip s = do
    (s', gossip_map) ← gossip_tuples gossip.tuples (s, [])
    ok (record s' { net = send_all gossip_map s'.net })

  -- send_gossip, for one address: the keys that are stored and that can be read.
  unfoldable add_value : Text → Text → LatticeType → AnnaError → Text → GossipMap → GossipMap
  add_value address key type AnnaError.no_error payload gossip_map =
      add_put address key type payload gossip_map
  add_value address key type error payload gossip_map = gossip_map

  unfoldable add_key : Text → Text → Option KeyProperty → GossipProgress → Run GossipProgress
  unfolding add_value
  add_key address key none p = ok p
  add_key address key (some property) (s, gossip_map) = do
    ((payload, error), store) ← process_get S key property.type s.store
    ok (record s { store = store }, add_value address key property.type error payload gossip_map)

  unfoldable pub add_keys : Text → List Text → GossipProgress → Run GossipProgress
  unfolding add_key
  add_keys address [] p = ok p
  add_keys address (key ∷ keys) (s, gossip_map) =
      add_key address key (HashMap.find key s.stored_key_map) (s, gossip_map)
      >>= add_keys address keys

  -- `gossip_map[address].set_type(type)`, then the keys of the address
  unfoldable pub gather : HashMap Text (List Text) → GossipProgress → Run GossipProgress
  gather [] p = ok p
  gather ((address, keys) ∷ rest) (s, gossip_map) =
      add_keys address keys
        (s, HashMap.assign address (opened (HashMap.find address gossip_map)) gossip_map)
      >>= gather rest

  unfoldable pub send_gossip : HashMap Text (List Text) → Server S.Store → Run (Server S.Store)
  send_gossip addr_keyset_map s = do
    (s', gossip_map) ← gather addr_keyset_map (s, [])
    ok (record s' { net = send_all gossip_map s'.net })
