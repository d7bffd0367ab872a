-- ===== src/Kvs/Round.antt =====
-- What the loop of `run` in src/kvs/server.cpp does after the messages: the gossip of what was put
-- since the last time, and the redistribution of keys after a node has joined.
pub mod Left
pub mod Stuck
pub mod Done
pub mod Told
use anna.Prelude.{
  ℕ, ◌==◌, list_eq, nat_eq, leb, Bool, true, false, not, ◌||◌, Option, none, some, List, [], ◌∷◌,
  ◌++◌, length, map, if◌then◌else◌,
}
use anna.Containers.HashMap
use anna.Containers.HashMap.{HashMap}
use anna.Containers.HashSet
use anna.Text.{Text}
use anna.Metadata.{all_tiers}
use anna.Run.{Run, ok, fault, ◌>>=◌}
use anna.Threads.{ServerThread, same_thread, gossip_connect_address, cache_update_connect_address}
use anna.Kvs.{Serializers, Config, Server}
use anna.Kvs.Drop.{drop_key}
use anna.Kvs.Gossip.{send_gossip}
use anna.Kvs.Redistribute.{AddressKeysetMap, add_key, spread_keys}

-- DATA_REDISTRIBUTE_THRESHOLD
abbrev pub data_redistribute_threshold : ℕ
data_redistribute_threshold = 50

abbrev pub is_empty {ℓ} : {A : Type ℓ} → List A → Bool
is_empty [] = true
is_empty (x ∷ xs) = false

-- The gossip addresses of the threads other than this one.
unfoldable pub others : ServerThread → List ServerThread → List Text
others wt [] = []
others wt (thread ∷ threads) =
    let rest = others wt threads in
    if same_thread thread wt then rest else gossip_connect_address thread ∷ rest

-- Where a changed key goes: to the other threads that are responsible for it, if they are known, and
-- to the caches that hold it.
unfoldable pub interested :
    ServerThread → HashMap Text (List Text) → Text → List ServerThread × Bool → List Text
interested wt key_to_cache_ips key (threads, succeed) =
    (if succeed then others wt threads else [])
    ++ map (λ ip. cache_update_connect_address ip 0) (HashMap.at [] key key_to_cache_ips)

-- `sent_keys`: keys up to the threshold
unfoldable pub take_keys : List Text → List Text → List Text
take_keys [] sent_keys = sent_keys
take_keys (key ∷ keys) sent_keys =
    let sent_keys' = HashSet.insert key sent_keys in
    let rest = take_keys keys sent_keys' in
    if leb data_redistribute_threshold (length sent_keys') then sent_keys' else rest

-- `for (const Key &key : sent_keys) { key_set.erase(key); }`
unfoldable pub erase_keys : List Text → List Text → List Text
erase_keys [] key_set = key_set
erase_keys (key ∷ sent_keys) key_set = erase_keys sent_keys (HashSet.erase key key_set)

-- `addr_keyset_map[address].insert(key)` for each
unfoldable pub add_all : Text → List Text → AddressKeysetMap → AddressKeysetMap
add_all address [] m = m
add_all address (key ∷ keys) m = add_all address keys (add_key key address m)

-- The loop over join_gossip_map, for what it sends.
unfoldable pub parts : HashMap Text (List Text) → AddressKeysetMap → AddressKeysetMap
parts [] m = m
parts ((address, key_set) ∷ join_gossip_map) m =
    parts join_gossip_map (add_all address (take_keys key_set []) m)

-- The same loop, for `remove_address_set`. What is erased is erased from a copy of the set.
unfoldable pub finished : HashMap Text (List Text) → List Text
finished [] = []
finished ((address, key_set) ∷ join_gossip_map) =
    let rest = finished join_gossip_map in
    if is_empty (erase_keys (take_keys key_set []) key_set) then address ∷ rest else rest

-- `for (const Address &remove_address : remove_address_set)`
unfoldable pub erase_addresses : List Text → HashMap Text (List Text) → HashMap Text (List Text)
erase_addresses [] m = m
erase_addresses (address ∷ addresses) m = erase_addresses addresses (HashMap.erase address m)

-- What a redistribution leaves of join_gossip_map.
abbrev pub after_round : HashMap Text (List Text) → HashMap Text (List Text)
after_round m = erase_addresses (finished m) m

module _ (S : Serializers) where
  -- `for (const string &key : join_remove_set)`
  unfoldable pub drop_all : List Text → Server S.Store → Run (Server S.Store)
  drop_all [] s = ok s
  drop_all (key ∷ keys) s = drop_key S key s >>= drop_all keys

  -- "only gossip if we have changes"
  unfoldable pub gossip_round : Config → Server S.Store → Run (Server S.Store)
  gossip_round config s = if is_empty s.local_changeset then ok s else (do
    (s', addr_keyset_map) ←
        spread_keys config all_tiers (interested config.wt s.key_to_cache_ips) s.local_changeset
          (s, [])
    sent ← send_gossip S config addr_keyset_map s'
    ok (record sent { local_changeset = [] }))

  -- "remove keys"
  abbrev pub remove_moved : Server S.Store → Run (Server S.Store)
  remove_moved s = do
    dropped ← drop_all s.join_remove_set s
    ok (record dropped { join_remove_set = [] })

  unfoldable pub redistribute : Config → Server S.Store → Run (Server S.Store)
  redistribute config s = if is_empty s.join_gossip_map then ok s else (do
    sent ←
        send_gossip S config (parts s.join_gossip_map [])
          (record s { join_gossip_map = after_round s.join_gossip_map })
    if is_empty sent.join_gossip_map then remove_moved sent else ok sent)
