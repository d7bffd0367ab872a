-- ===== src/Kvs/Caches/Management.antt =====
-- management_node_response_handler keeps the maps linked, and forgets the caches that are gone.
use anna.Prelude.{
  ◌==◌, ◌≡◌, refl, list_eq, nat_eq, not, ◌||◌, ◌&&◌, List, [], ◌∷◌, arith, Bool-cases, inl, inr,
}
use anna.Containers.HashMap
use anna.Containers.HashMap.{HashMap}
use anna.Containers.HashSet
use anna.Text.{Text}
use anna.Run.{ok, returns, Ensures-ok, Ensures-eq, Ensures-bind}
use anna.Kvs.{Config, Server}
use anna.Kvs.Caches.{
  CacheMaps, maps_of, with_maps, erase_each, forget_in, forget, insert_each, ask_caches,
  management_node_response_handler,
}
use anna.Kvs.Caches.Linked.{EachOnce, Linked, contains-erase_each}

at-forget_in :
    (cache_ip k : Text) (m : HashMap Text (List Text))
    → HashMap.at [] k (forget_in cache_ip m) ≡ HashSet.erase cache_ip (HashMap.at [] k m)
unfolding forget_in HashMap.find HashSet.erase
at-forget_in cache_ip k [] = refl
at-forget_in cache_ip k ((j, ips) ∷ m) = elim (Bool-cases (j == k)) [
  | inl same ↦ rw same refl
  | inr other ↦ rw other (at-forget_in cache_ip k m)
]

contains-erase_map :
    (cache_ip ip key : Text) (m : HashMap Text (List Text))
    → HashMap.Distinct m
    → HashSet.contains key (HashMap.at [] ip (HashMap.erase cache_ip m))
      ≡ (HashSet.contains key (HashMap.at [] ip m) && not (cache_ip == ip))
unfolding HashSet.contains
contains-erase_map cache_ip ip key m d = ground (arith, HashMap.find-erase cache_ip ip m d)

erase_map-EachOnce :
    (cache_ip : Text) (m : HashMap Text (List Text))
    → HashMap.Distinct m
    → EachOnce m
    → EachOnce (HashMap.erase cache_ip m)
erase_map-EachOnce cache_ip m d h ip = elim (Bool-cases (cache_ip == ip)) [
  | inl same ↦ rw (HashMap.find-erase cache_ip ip m d, same) tt
  | inr other ↦ rw (HashMap.find-erase cache_ip ip m d, other) (h ip)
]

-- What is left when the caches of a list are forgotten.
pub record IsForgotten (deleted : List Text) (c c' : CacheMaps) : Type 0 where
  pub linked : Linked c'
  pub keys :
      (ip key : Text)
      → HashSet.contains key (HashMap.at [] ip c'.cache_ip_to_keys) ≡ (
          HashSet.contains key (HashMap.at [] ip c.cache_ip_to_keys)
          && not (HashSet.contains ip deleted))

forget-IsForgotten :
    (deleted : List Text) (c : CacheMaps) → Linked c → IsForgotten deleted c (forget deleted c)
unfolding forget HashSet.contains
forget-IsForgotten [] c l = record { linked = l; keys = λ ip key. ground arith }
forget-IsForgotten (cache_ip ∷ deleted) c l =
    let c' : CacheMaps = record {
      cache_ip_to_keys = HashMap.erase cache_ip c.cache_ip_to_keys;
      key_to_cache_ips = forget_in cache_ip c.key_to_cache_ips;
    } in
    let r = forget-IsForgotten deleted c' (record {
      agree = λ ip key. ground (
        arith,
        contains-erase_map cache_ip ip key c.cache_ip_to_keys l.caches_once,
        at-forget_in cache_ip key c.key_to_cache_ips,
        l.agree ip key,
        HashSet.contains-erase cache_ip ip (HashMap.at [] key c.key_to_cache_ips) (l.ips_once key),
      );
      keys_once = erase_map-EachOnce cache_ip c.cache_ip_to_keys l.caches_once l.keys_once;
      ips_once = λ key.
          rw (at-forget_in cache_ip key c.key_to_cache_ips)
            (HashSet.erase-Distinct cache_ip _ (l.ips_once key));
      caches_once = HashMap.erase-Distinct cache_ip c.cache_ip_to_keys l.caches_once;
    }) in
    record {
      linked = r.linked;
      keys = λ ip key. ground (
        arith,
        r.keys ip key,
        contains-erase_map cache_ip ip key c.cache_ip_to_keys l.caches_once,
      );
    }

contains-insert_each :
    (k : Text) (nodes set : List Text)
    → HashSet.contains k (insert_each nodes set)
      ≡ (HashSet.contains k set || HashSet.contains k nodes)
unfolding insert_each HashSet.contains
contains-insert_each k [] set = ground arith
contains-insert_each k (node ∷ nodes) set = ground (
  arith,
  contains-insert_each k nodes (HashSet.insert node set),
  HashSet.contains-insert node k set,
)

module _ {T : Type 0} (config : Config) where
  pub record IsManaged (func_nodes : List Text) (s s' : Server T) : Type 0 where
    pub linked : Linked (maps_of s')
    -- the caches are those of the response
    pub extant : (ip : Text) → HashSet.contains ip s'.extant_caches ≡ HashSet.contains ip func_nodes
    -- a cache that was tracked and is not in the response has no keys; the others have theirs
    pub keys :
        (ip key : Text)
        → HashSet.contains key (HashMap.at [] ip s'.cache_ip_to_keys) ≡ (
            HashSet.contains key (HashMap.at [] ip s.cache_ip_to_keys)
            && not (HashSet.contains ip s.extant_caches && not (HashSet.contains ip func_nodes)))

  -- After a response of the management node that is handled, where the maps of the caches were linked
  -- and no cache stood twice: they are linked, the tracked caches are those of the response, and those
  -- that were tracked before and are not in the response have lost their keys, and only those.
  pub management_node_response-IsManaged :
      (func_nodes : List Text) (s s' : Server T)
      → Linked (maps_of s)
      → HashSet.Distinct s.extant_caches
      → management_node_response_handler config func_nodes s ≡ ok s'
      → IsManaged func_nodes s s'
  unfolding management_node_response_handler HashSet.contains
  management_node_response-IsManaged func_nodes s s' l d =
      let deleted = erase_each func_nodes s.extant_caches in
      let f = forget-IsForgotten deleted (maps_of s) l in
      let extant = insert_each func_nodes [] in
      let s1 = with_maps (forget deleted (maps_of s)) (record s { extant_caches = extant }) in
      Ensures-ok {P = IsManaged func_nodes s} _ (
        Ensures-bind (λ _. Unit)
          (ask_caches config extant s1
            (record { addr_request_map = []; rid = s1.rid; net = s1.net }))
          _ (Ensures-eq _ (λ _ _. tt))
          (λ rs _. returns (record {
            linked = record {
              agree = f.linked.agree;
              keys_once = f.linked.keys_once;
              ips_once = f.linked.ips_once;
              caches_once = f.linked.caches_once;
            };
            extant = λ ip. ground (arith, contains-insert_each ip func_nodes []);
            keys = λ ip key.
                ground (arith, f.keys ip key, contains-erase_each ip func_nodes s.extant_caches d);
          })))
