-- ===== src/Kvs/Caches/Response.antt =====
-- cache_ip_response_handler keeps the maps linked, and gives a cache the keys that it reported.
use anna.Prelude.{
  ◌==◌, ==_iff, ◌≡◌, list_eq, nat_eq, ◌||◌, ◌&&◌, List, [], ◌∷◌, arith, if◌then◌else◌,
}
use anna.Containers.HashMap
use anna.Containers.HashMap.{HashMap}
use anna.Containers.HashSet
use anna.Text.{Text}
use anna.Messages.{AnnaError, KeyTuple, KeyResponse}
use anna.Metadata.Names.{get_key_from_user_metadata}
use anna.Kvs.{Server}
use anna.Kvs.Caches.{
  CacheMaps, maps_of, erase_each, unlink, link, refresh, refresh_unless, take_tuple, take_tuples,
  cache_ip_response_handler,
}
use anna.Kvs.Caches.Linked.{
  EachOnce, Linked, assign-EachOnce, contains-erase_each, contains-insert-at, contains-at-assign,
  unlink-EachOnce, contains-unlink,
}

-- What `link` adds to both maps.
record IsLinkedTo (cache_ip : Text) (keys : List Text) (c c' : CacheMaps) : Type 0 where
  by_ip :
      (ip key : Text)
      → HashSet.contains key (HashMap.at [] ip c'.cache_ip_to_keys) ≡ (
          HashSet.contains key (HashMap.at [] ip c.cache_ip_to_keys)
          || (cache_ip == ip && HashSet.contains key keys))
  by_key :
      (ip key : Text)
      → HashSet.contains ip (HashMap.at [] key c'.key_to_cache_ips) ≡ (
          HashSet.contains ip (HashMap.at [] key c.key_to_cache_ips)
          || (cache_ip == ip && HashSet.contains key keys))
  keys_once : EachOnce c'.cache_ip_to_keys
  ips_once : EachOnce c'.key_to_cache_ips
  caches_once : HashMap.Distinct c'.cache_ip_to_keys

link-IsLinkedTo :
    (cache_ip : Text) (keys : List Text) (c : CacheMaps)
    → EachOnce c.cache_ip_to_keys
    → EachOnce c.key_to_cache_ips
    → HashMap.Distinct c.cache_ip_to_keys
    → IsLinkedTo cache_ip keys c (link cache_ip keys c)
unfolding link HashSet.contains
link-IsLinkedTo cache_ip [] c h k d = record {
  by_ip = λ ip key. ground arith;
  by_key = λ ip key. ground arith;
  keys_once = h;
  ips_once = k;
  caches_once = d;
}
link-IsLinkedTo cache_ip (j ∷ keys) c h k d =
    let a = HashSet.insert j (HashMap.at [] cache_ip c.cache_ip_to_keys) in
    let b = HashSet.insert cache_ip (HashMap.at [] j c.key_to_cache_ips) in
    let r =
      link-IsLinkedTo cache_ip keys
        (record {
          cache_ip_to_keys = HashMap.assign cache_ip a c.cache_ip_to_keys;
          key_to_cache_ips = HashMap.assign j b c.key_to_cache_ips;
        })
        (assign-EachOnce cache_ip a c.cache_ip_to_keys
          (HashSet.insert-Distinct j (HashMap.at [] cache_ip c.cache_ip_to_keys) (h cache_ip)) h)
        (assign-EachOnce j b c.key_to_cache_ips
          (HashSet.insert-Distinct cache_ip (HashMap.at [] j c.key_to_cache_ips) (k j)) k)
        (HashMap.assign-Distinct cache_ip a c.cache_ip_to_keys d) in
    record {
      by_ip = λ ip key.
          ground (arith, r.by_ip ip key, contains-insert-at j cache_ip ip key c.cache_ip_to_keys);
      by_key = λ ip key.
          ground (arith, r.by_key ip key, contains-insert-at cache_ip j key ip c.key_to_cache_ips);
      keys_once = r.keys_once;
      ips_once = r.ips_once;
      caches_once = r.caches_once;
    }

-- What a response that names a cache and its keys does to the maps: they are linked, the cache has
-- these keys, and the other caches have what they had.
pub record IsRefreshed (cache_ip : Text) (key_set : List Text) (c c' : CacheMaps) : Type 0 where
  pub linked : Linked c'
  pub keys :
      (ip key : Text)
      → HashSet.contains key (HashMap.at [] ip c'.cache_ip_to_keys) ≡ (
          if cache_ip == ip
          then HashSet.contains key key_set
          else HashSet.contains key (HashMap.at [] ip c.cache_ip_to_keys))

-- On linked maps, what a response without an error changes keeps the maps linked, gives the cache
-- exactly the reported keys, and leaves the keys of every other cache.
pub refresh-IsRefreshed :
    (cache_ip : Text) (key_set : List Text) (c : CacheMaps)
    → Linked c
    → IsRefreshed cache_ip key_set c (refresh cache_ip key_set c)
unfolding refresh HashSet.contains
refresh-IsRefreshed cache_ip key_set c l =
    let old = HashMap.at [] cache_ip c.cache_ip_to_keys in
    let deleted = erase_each key_set old in
    let r =
      link-IsLinkedTo cache_ip key_set
        (record {
          cache_ip_to_keys = HashMap.assign cache_ip [] c.cache_ip_to_keys;
          key_to_cache_ips = unlink cache_ip deleted c.key_to_cache_ips;
        })
        (assign-EachOnce cache_ip [] c.cache_ip_to_keys tt l.keys_once)
        (unlink-EachOnce cache_ip deleted c.key_to_cache_ips l.ips_once)
        (HashMap.assign-Distinct cache_ip [] c.cache_ip_to_keys l.caches_once) in
    record {
      linked = record {
        agree = λ ip key. ground (
          arith,
          r.by_ip ip key,
          r.by_key ip key,
          l.agree ip key,
          l.agree cache_ip key,
          contains-at-assign cache_ip ip key [] c.cache_ip_to_keys,
          contains-unlink cache_ip deleted key ip c.key_to_cache_ips l.ips_once,
          contains-erase_each key key_set old (l.keys_once cache_ip),
          ==_iff cache_ip ip,
        );
        keys_once = r.keys_once;
        ips_once = r.ips_once;
        caches_once = r.caches_once;
      };
      keys = λ ip key.
          ground (arith, r.by_ip ip key, contains-at-assign cache_ip ip key [] c.cache_ip_to_keys);
    }

refresh_unless-Linked :
    (e : AnnaError) (cache_ip : Text) (key_set : List Text) (c : CacheMaps)
    → Linked c
    → Linked (refresh_unless e cache_ip key_set c)
unfolding refresh_unless
refresh_unless-Linked AnnaError.no_error cache_ip key_set c l =
    (refresh-IsRefreshed cache_ip key_set c l).linked
refresh_unless-Linked AnnaError.key_dne cache_ip key_set c l = l
refresh_unless-Linked AnnaError.wrong_thread cache_ip key_set c l = l
refresh_unless-Linked AnnaError.timeout cache_ip key_set c l = l
refresh_unless-Linked AnnaError.lattice cache_ip key_set c l = l
refresh_unless-Linked AnnaError.no_servers cache_ip key_set c l = l

module _ (cached_keys : Text → List Text) where
  take_tuple-Linked :
      (tuple : KeyTuple) (c : CacheMaps) → Linked c → Linked (take_tuple cached_keys tuple c)
  unfolding take_tuple
  take_tuple-Linked tuple c l =
      refresh_unless-Linked tuple.error (get_key_from_user_metadata tuple.key)
        (cached_keys tuple.payload) c l

  take_tuples-Linked :
      (tuples : List KeyTuple) (c : CacheMaps)
      → Linked c
      → Linked (take_tuples cached_keys tuples c)
  unfolding take_tuples
  take_tuples-Linked [] c l = l
  take_tuples-Linked (tuple ∷ tuples) c l =
      take_tuples-Linked tuples (take_tuple cached_keys tuple c) (take_tuple-Linked tuple c l)

  -- cache_ip_response_handler keeps the maps of the caches linked, for every response: a cache has a
  -- key in the one exactly when the key has the cache in the other, and no entry stands twice.
  pub cache_ip_response-Linked :
      {T : Type 0} (response : KeyResponse) (s : Server T)
      → Linked (maps_of s)
      → Linked (maps_of (cache_ip_response_handler cached_keys response s))
  unfolding cache_ip_response_handler
  cache_ip_response-Linked response s l = take_tuples-Linked response.tuples (maps_of s) l
