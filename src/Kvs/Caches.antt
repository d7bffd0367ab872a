-- ===== src/Kvs/Caches.antt =====
-- Which cache holds which key: cache_ip_response_handler and management_node_response_handler of
-- src/kvs.
pub mod Linked
pub mod Response
pub mod Management
use anna.Prelude.{
  ℕ, ◌==◌, list_eq, nat_eq, Bool, true, false, not, ◌||◌, ◌&&◌, Option, none, some, List, [], ◌∷◌,
  ◌++◌, if◌then◌else◌,
}
use anna.Containers.HashMap
use anna.Containers.HashMap.{HashMap}
use anna.Containers.HashSet
use anna.Text.{Text}
use anna.Messages.{AnnaError, KeyTuple, KeyRequest, KeyResponse, Net, send, request}
use anna.Metadata.{memory, tier_eq}
use anna.Metadata.Names.{get_user_metadata_key, get_key_from_user_metadata}
use anna.Run.{Run, ok, fault, ◌>>=◌}
use anna.Threads.{cache_ip_response_connect_address}
use anna.Ring.HashRing
use anna.Ring.MetadataRequest.{Requests, prepare_metadata_get_request}
use anna.Kvs.{Config, Server}
use anna.Kvs.Gossip.{send_all}

-- cache_ip_to_keys and key_to_cache_ips
pub record CacheMaps : Type 0 where
  pub cache_ip_to_keys : HashMap Text (List Text)
  pub key_to_cache_ips : HashMap Text (List Text)

abbrev pub maps_of : {T : Type 0} → Server T → CacheMaps
maps_of s = record { cache_ip_to_keys = s.cache_ip_to_keys; key_to_cache_ips = s.key_to_cache_ips }

abbrev pub with_maps : {T : Type 0} → CacheMaps → Server T → Server T
with_maps c s = record s {
  cache_ip_to_keys = c.cache_ip_to_keys;
  key_to_cache_ips = c.key_to_cache_ips;
}

-- `old_keys_for_ip.erase(cache_key)` for each key of the response
unfoldable pub erase_each : List Text → List Text → List Text
erase_each [] keys = keys
erase_each (key ∷ fresh) keys = erase_each fresh (HashSet.erase key keys)

-- `key_to_cache_ips[key].erase(cache_ip)` for each of the deleted keys
unfoldable pub unlink : Text → List Text → HashMap Text (List Text) → HashMap Text (List Text)
unlink cache_ip [] m = m
unlink cache_ip (key ∷ keys) m =
    unlink cache_ip keys (HashMap.assign key (HashSet.erase cache_ip (HashMap.at [] key m)) m)

-- `cache_ip_to_keys[cache_ip].emplace(cache_key); key_to_cache_ips[cache_key].insert(cache_ip);`
unfoldable pub link : Text → List Text → CacheMaps → CacheMaps
link cache_ip [] c = c
link cache_ip (key ∷ keys) c = link cache_ip keys (record {
  cache_ip_to_keys =
      HashMap.assign cache_ip (HashSet.insert key (HashMap.at [] cache_ip c.cache_ip_to_keys))
        c.cache_ip_to_keys;
  key_to_cache_ips =
      HashMap.assign key (HashSet.insert cache_ip (HashMap.at [] key c.key_to_cache_ips))
        c.key_to_cache_ips;
})

-- What a response without an error changes: the deleted keys, `clear()`, and the keys of now.
unfoldable pub refresh : Text → List Text → CacheMaps → CacheMaps
refresh cache_ip key_set c = link cache_ip key_set (record {
  cache_ip_to_keys = HashMap.assign cache_ip [] c.cache_ip_to_keys;
  key_to_cache_ips =
      unlink cache_ip (erase_each key_set (HashMap.at [] cache_ip c.cache_ip_to_keys))
        c.key_to_cache_ips;
})

-- `if (tuple.error() == AnnaError::NO_ERROR)`
unfoldable pub refresh_unless : AnnaError → Text → List Text → CacheMaps → CacheMaps
refresh_unless AnnaError.no_error cache_ip key_set c = refresh cache_ip key_set c
refresh_unless error cache_ip key_set c = c

-- `cached_keys` is what protobuf reads from a payload: the keys of the StringSet that is the value of
-- the LWWValue.
module _ (cached_keys : Text → List Text) where
  unfoldable pub take_tuple : KeyTuple → CacheMaps → CacheMaps
  take_tuple tuple c =
      refresh_unless tuple.error (get_key_from_user_metadata tuple.key) (cached_keys tuple.payload)
        c

  unfoldable pub take_tuples : List KeyTuple → CacheMaps → CacheMaps
  take_tuples [] c = c
  take_tuples (tuple ∷ tuples) c = take_tuples tuples (take_tuple tuple c)

  unfoldable pub cache_ip_response_handler : {T : Type 0} → KeyResponse → Server T → Server T
  cache_ip_response_handler response s = with_maps (take_tuples response.tuples (maps_of s)) s

-- `for (auto &key_and_caches : key_to_cache_ips)`
unfoldable pub forget_in : Text → HashMap Text (List Text) → HashMap Text (List Text)
forget_in cache_ip [] = []
forget_in cache_ip ((key, ips) ∷ m) = (key, HashSet.erase cache_ip ips) ∷ forget_in cache_ip m

unfoldable pub forget : List Text → CacheMaps → CacheMaps
forget [] c = c
forget (cache_ip ∷ deleted) c = forget deleted (record {
  cache_ip_to_keys = HashMap.erase cache_ip c.cache_ip_to_keys;
  key_to_cache_ips = forget_in cache_ip c.key_to_cache_ips;
})

-- `extant_caches.insert(func_node)` for each
unfoldable pub insert_each : List Text → List Text → List Text
insert_each [] set = set
insert_each (node ∷ nodes) set = insert_each nodes (HashSet.insert node set)

module _ {T : Type 0} (config : Config) where
  -- The requests for the keys of each cache.
  unfoldable pub ask_caches : List Text → Server T → Requests → Run Requests
  ask_caches [] s rs = ok rs
  ask_caches (cache_ip ∷ caches) s rs = do
    rs' ←
        prepare_metadata_get_request config.lib (get_user_metadata_key cache_ip)
          (HashMap.at HashRing.empty memory s.global_hash_rings)
          (HashMap.at HashRing.empty memory s.local_hash_rings)
          (cache_ip_response_connect_address config.wt) rs
    ask_caches caches s rs'

  -- `func_nodes` is the StringSet that protobuf reads.
  unfoldable pub management_node_response_handler : List Text → Server T → Run (Server T)
  management_node_response_handler func_nodes s = do
    let extant = insert_each func_nodes []
    let deleted = erase_each func_nodes s.extant_caches
    let s' = with_maps (forget deleted (maps_of s)) (record s { extant_caches = extant })
    rs ← ask_caches extant s' (record { addr_request_map = []; rid = s'.rid; net = s'.net })
    ok (record s' { rid = rs.rid; net = send_all rs.addr_request_map rs.net })
