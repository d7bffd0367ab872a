-- ===== src/Kvs/Round/Done.antt =====
-- Redistribution where each address has at most fifty keys: one round sends all of them, and removes
-- what is to be removed.
use anna.Prelude.{
  ℕ, zero, suc, ◌≤◌, ==_refl, ◌≡◌, refl, ap, sym, ◌∙◌, list_eq, nat_eq, leb, true, false, none,
  List, [], ◌∷◌, arith, length, take, All, All-mono, if◌then◌else◌,
}
use anna.Containers.HashMap
use anna.Containers.HashMap.{HashMap}
use anna.Containers.HashSet
use anna.Text.{Text}
use anna.Run.{Run, ok, Ensures, returns, faults, Ensures-ok, Ensures-if, Ensures-bind, Ensures-eq}
use anna.Kvs.{Serializers, Config, Server}
use anna.Kvs.Drop.{drop_key, drop_key_lem, DropsOne, Drops, Drops-cons}
use anna.Kvs.Gossip.Keeps.{Keeps, send_gossip-Keeps}
use anna.Kvs.Gossip.{send_gossip}
use anna.Kvs.Gossip.Passes.{PassedOn, send_gossip-PassedOn, value_of}
use anna.Kvs.Redistribute.{AddressKeysetMap, add_key}
use anna.Kvs.Redistribute.Covers.{IsSent, Grows, add_key-Grows, add_key-IsSent}
use anna.Kvs.Round.{
  is_empty, take_keys, add_all, parts, finished, erase_addresses, after_round, drop_all,
  remove_moved, redistribute,
}
use anna.Kvs.Round.Left.{take_keys-room, Fresh-none, is_empty-left}

-- The keys of an address are a set of at most fifty.
abbrev pub IsSmall : Text × List Text → Type 0
IsSmall (address, keys) = HashSet.Distinct keys × (length keys ≤ 50)

take_keys-small : (keys : List Text) → IsSmall ([], keys) → take_keys keys [] ≡ keys
take_keys-small keys (d, h) =
    take_keys-room 49 [] keys refl d (Fresh-none keys) ∙ take-all 50 keys h
  where
    take-all : (n : ℕ) (xs : List Text) → length xs ≤ n → take n xs ≡ xs
    take-all zero [] h = refl
    take-all zero (x ∷ xs) h = absurd (omega arith)
    take-all (suc n) [] h = refl
    take-all (suc n) (x ∷ xs) h = ap (λ t. x ∷ t) (take-all n xs (omega arith))

add_all-Grows :
    (address : Text) (keys : List Text) (m : AddressKeysetMap) → Grows m (add_all address keys m)
unfolding add_all
add_all-Grows address [] m k a h = h
add_all-Grows address (key ∷ keys) m k a h =
    add_all-Grows address keys (add_key key address m) k a (add_key-Grows key address m k a h)

add_all-IsSent :
    (address : Text) (keys : List Text) (m : AddressKeysetMap)
    → All (λ k. IsSent (add_all address keys m) k address) keys
unfolding add_all
add_all-IsSent address [] m = tt
add_all-IsSent address (key ∷ keys) m = (
  add_all-Grows address keys (add_key key address m) key address (add_key-IsSent key address m),
  add_all-IsSent address keys (add_key key address m),
)

parts-Grows : (j : HashMap Text (List Text)) (m : AddressKeysetMap) → Grows m (parts j m)
unfolding parts
parts-Grows [] m k a h = h
parts-Grows ((address, keys) ∷ j) m k a h =
    parts-Grows j (add_all address (take_keys keys []) m) k a
      (add_all-Grows address (take_keys keys []) m k a h)

-- All that an entry names is sent.
abbrev pub EntryIsSent : AddressKeysetMap → Text × List Text → Type 0
EntryIsSent m (address, keys) = All (λ k. IsSent m k address) keys

parts-IsSent :
    (j : HashMap Text (List Text)) (m : AddressKeysetMap)
    → All IsSmall j
    → All (EntryIsSent (parts j m)) j
unfolding parts
parts-IsSent [] m h = tt
parts-IsSent ((address, keys) ∷ j) m (small, h) = (
  All-mono _ _ keys (λ k i. parts-Grows j (add_all address (take_keys keys []) m) k address i)
      (rw (take_keys-small keys small) (add_all-IsSent address keys m)),
  parts-IsSent j (add_all address (take_keys keys []) m) h,
)

after_round-small : (j : HashMap Text (List Text)) → All IsSmall j → after_round j ≡ []
unfolding finished erase_addresses HashMap.erase
after_round-small [] h = refl
after_round-small ((address, keys) ∷ j) ((d, few), h) =
    rw (is_empty-left keys d, within (length keys) few)
      (rw (erase_addresses, HashMap.erase, ==_refl address) (after_round-small j h))
  where
    within : (n : ℕ) → n ≤ 50 → leb n 50 ≡ true
    within n h = ground arith

module _ (S : Serializers) (config : Config) where
  onward :
      (key : Text) (keys : List Text) (s s' : Server S.Store) {m : Run (Server S.Store)}
      → HashMap.Distinct s.stored_key_map
      → DropsOne S key s s'
      → Ensures (Drops keys s') m
      → Ensures (Drops (key ∷ keys) s) m
  onward key keys s s' d e (returns h) = returns (
      Drops-cons S key keys s s' _ d
        (e
          ∙ ap
              (λ (c : List Text). record s {
                store = s'.store;
                stored_key_map = HashMap.erase key s.stored_key_map;
                local_changeset = c;
              })
              (sym (ap (λ (r : Server S.Store). r.local_changeset) e)))
        h)
  onward key keys s s' d e faults = faults

  drop_all-Drops :
      (keys : List Text) (s : Server S.Store)
      → HashMap.Distinct s.stored_key_map
      → Ensures (Drops keys s) (drop_all S keys s)
  unfolding drop_all HashSet.contains
  drop_all-Drops [] s d = returns (record { stored = λ k. refl; distinct = d; rest = refl })
  drop_all-Drops (key ∷ keys) s d =
      Ensures-bind (DropsOne S key s) (drop_key S key s) _ (drop_key_lem S key s) (λ s' e.
        let f : s'.stored_key_map ≡ HashMap.erase key s.stored_key_map =
          ap (λ (r : Server S.Store). r.stored_key_map) e in
        let d' : HashMap.Distinct s'.stored_key_map =
          rw f (HashMap.erase-Distinct key s.stored_key_map d) in
        onward key keys s s' d e (drop_all-Drops keys s' d'))

  -- What could be read of the keys of an entry went out to its address.
  abbrev pub EntryPassedOn : Server S.Store → Server S.Store → Text × List Text → Type 0
  EntryPassedOn s s' (address, keys) = All (λ k. PassedOn S s s' k address) keys

  -- What one round does when every address is small: what can be read of each key went out to each
  -- address that it is for, no address is left, and the keys to remove are removed.
  pub record IsDone (s s' : Server S.Store) : Type 0 where
    pub sent : All (EntryPassedOn s s') s.join_gossip_map
    pub none_left : s'.join_gossip_map ≡ []
    pub none_to_remove : s'.join_remove_set ≡ []
    pub stored :
        (k : Text)
        → HashMap.find k s'.stored_key_map
          ≡ (if HashSet.contains k s.join_remove_set then none else HashMap.find k s.stored_key_map)

  entries-PassedOn :
      (s sent : Server S.Store) (j : HashMap Text (List Text)) (m : AddressKeysetMap)
      → ((k a : Text) → IsSent m k a → PassedOn S s sent k a)
      → All (EntryIsSent m) j
      → All (EntryPassedOn s sent) j
  entries-PassedOn s sent [] m f h = tt
  entries-PassedOn s sent ((address, keys) ∷ j) m f (h, more) =
      (All-mono _ _ keys (λ k i. f k address i) h, entries-PassedOn s sent j m f more)

  remove_moved-IsDone :
      (s sent : Server S.Store)
      → All (EntryPassedOn s sent) s.join_gossip_map
      → HashMap.Distinct s.stored_key_map
      → Keeps (record s { join_gossip_map = [] }) sent
      → Ensures (IsDone s) (remove_moved S sent)
  remove_moved-IsDone s sent went d h =
      let stored : sent.stored_key_map ≡ s.stored_key_map =
        ap (λ (r : Server S.Store). r.stored_key_map) h in
      let to_remove : sent.join_remove_set ≡ s.join_remove_set =
        ap (λ (r : Server S.Store). r.join_remove_set) h in
      let d' : HashMap.Distinct sent.stored_key_map = rw stored d in
      Ensures-bind (Drops sent.join_remove_set sent) (drop_all S sent.join_remove_set sent) _
        (drop_all-Drops sent.join_remove_set sent d')
        (λ dropped k.
          let net : dropped.net ≡ sent.net = ap (λ (r : Server S.Store). r.net) k.rest in
          returns (record {
            sent = rw net went;
            none_left =
                ap (λ (r : Server S.Store). r.join_gossip_map) k.rest
                ∙ ap (λ (r : Server S.Store). r.join_gossip_map) h;
            none_to_remove = refl;
            stored = λ key. k.stored key ∙ (rw (stored, to_remove) refl);
          }))

  -- A round that returns, where there is an address, each has at most fifty keys, and the keys of the
  -- stored map stand once, is done: to each address a message with each of its keys went out, with
  -- the value that the key had before, for the keys that are stored and can be read; join_gossip_map
  -- and join_remove_set are empty, and of the stored keys exactly those of join_remove_set are gone.
  pub redistribute-IsDone :
      (s s' : Server S.Store)
      → is_empty s.join_gossip_map ≡ false
      → All IsSmall s.join_gossip_map
      → HashMap.Distinct s.stored_key_map
      → redistribute S config s ≡ ok s'
      → IsDone s s'
  unfolding redistribute value_of
  redistribute-IsDone s s' some_to_send small d =
      let start : Server S.Store = record s { join_gossip_map = [] } in
      let m = parts s.join_gossip_map [] in
      Ensures-ok {P = IsDone s} (redistribute S config s) (
        Ensures-if (is_empty s.join_gossip_map) _ _ (λ h. absurd (cc (h, some_to_send)))
          (λ _. rw (after_round-small s.join_gossip_map small) (
            Ensures-bind (λ sent. (send_gossip S config m start ≡ ok sent) × Keeps start sent)
              (send_gossip S config m start) _
              (Ensures-eq _ (λ sent e. (e, Ensures-ok _ (send_gossip-Keeps S config m start) e)))
              (λ sent (went, h).
                let e : sent.join_gossip_map ≡ [] =
                  ap (λ (r : Server S.Store). r.join_gossip_map) h in
                Ensures-if (is_empty sent.join_gossip_map) _ _
                  (λ _.
                    remove_moved-IsDone s sent
                      (entries-PassedOn s sent s.join_gossip_map m
                        (λ k a i. send_gossip-PassedOn S config m start sent k a went i)
                        (parts-IsSent s.join_gossip_map [] small))
                      d h)
                  (λ left. absurd (empty_not sent.join_gossip_map e left))))))
    where
      empty_not : (m : HashMap Text (List Text)) → m ≡ [] → is_empty m ≡ false → ⊥
      empty_not [] e h = cc
      empty_not (p ∷ m) e h = cc
