-- ===== src/Kvs/Gossip/Sends.antt =====
-- send_gossip sends: each key that it is given for an address, and that can be read, goes out to it.
use anna.Prelude.{
  ◌==◌, ==_iff, ◌≡◌, refl, sym, ap, ◌∙◌, list_eq, nat_eq, Bool, true, false, ◌||◌, ◌&&◌, Option,
  none, some, List, [], ◌∷◌, ◌++◌, arith, Bool-cases, inl, inr,
}
use anna.Containers.HashMap
use anna.Containers.HashMap.{HashMap}
use anna.Containers.HashSet
use anna.Text.{Text}
use anna.Messages.{LatticeType, AnnaError, no_error, Net}
use anna.Messages.Carried.{Delivers}
use anna.Run.{Run, ok, Ensures, returns, faults, Ensures-eq, Ensures-bind, Ensures-mono}
use anna.Kvs.{Serializers, KeyProperty, Config, Server}
use anna.Kvs.Gossip.{
  GossipMap, GossipProgress, opened, add_value, add_key, add_keys, gather, send_gossip,
}
use anna.Kvs.Process.{process_get}
use anna.Kvs.Redistribute.{AddressKeysetMap}
use anna.Kvs.Redistribute.Covers.{IsSent}
use anna.Kvs.Gossip.Held.{
  Holds, opened-Holds, put-Holds, put-Holds_self, outgoing, send_all-sent, outgoing-carries,
}

module _ (S : Serializers) where
  -- The key is stored, and a read of it gives the payload.
  pub record IsReadable (key payload : Text) (s : Server S.Store) : Type 0 where
    pub property : KeyProperty
    pub stored : HashMap.find key s.stored_key_map ≡ some property
    pub read : (S.get property.type key s.store).0 ≡ (payload, no_error)

  process_get-eq_ok :
      (key : Text) (t : LatticeType) (store : S.Store) (r : (Text × AnnaError) × S.Store)
      → process_get S key t store ≡ ok r
      → r ≡ S.get t key store
  unfolding process_get
  process_get-eq_ok key LatticeType.none store r h = absurd (cc)
  process_get-eq_ok key _ store r h = cc

module _ (S : Serializers) (config : Config) (address key payload : Text) where
  abbrev Holding : GossipMap → Type 0
  Holding g = Holds address key payload g

  -- From the first to the second: the key stays readable, what is in the message stays, and it comes in
  -- if `named`.
  record Goes (named : Bool) (p q : GossipProgress S config) : Type 0 where
    pub readable : IsReadable S key payload q.0
    pub net : q.0.net ≡ p.0.net
    pub keeps : Holding p.1 → Holding q.1
    pub enters : named ≡ true → Holding q.1

  add_value-Holding :
      (a k : Text) (t : LatticeType) (error : AnnaError) (v : Text) (g : GossipMap)
      → Holding g
      → Holding (add_value S config a k t error v g)
  unfolding add_value
  add_value-Holding a k t AnnaError.no_error v g h = put-Holds a address k t v key payload g h
  add_value-Holding a k t _ v g h = h

  same_entry :
      (k : Text) (m : HashMap Text KeyProperty) (a b : KeyProperty)
      → k ≡ key
      → HashMap.find k m ≡ some a
      → HashMap.find key m ≡ some b
      → (k ≡ key) × (a ≡ b)
  same_entry k m a b e f g =
      let h : some a ≡ some b = sym f ∙ ap (λ j. HashMap.find j m) e ∙ g in (e, cc h)

  read-IsReadable :
      (k : Text) (property : KeyProperty) (s : Server S.Store)
      → HashMap.find k s.stored_key_map ≡ some property
      → IsReadable S key payload s
      → IsReadable S key payload (record s { store = (S.get property.type k s.store).1 })
  read-IsReadable k property s e r = elim (Bool-cases (k == key)) [
    | inl same ↦
        let there =
          same_entry k s.stored_key_map property r.property ((==_iff k key).0 same) e r.stored in
        record {
          property = r.property;
          stored = r.stored;
          read = rw (there.0, there.1) (S.get-get r.property.type key payload s.store r.read);
        }
    | inr other ↦ record {
      property = r.property;
      stored = r.stored;
      read =
          S.get-get_ne r.property.type property.type key k s.store
            (λ h. let f : (k == key) ≡ true = (==_iff k key).1 (sym h) in cc (f, other))
          ∙ r.read;
    }
  ]

  -- A key that is named is entered, with what is read.
  entered :
      (k : Text) (property : KeyProperty) (s : Server S.Store) (g : GossipMap)
      → k ≡ key
      → HashMap.find k s.stored_key_map ≡ some property
      → IsReadable S key payload s
      → (let r = S.get property.type k s.store in
          Holding (add_value S config address k property.type r.0.1 r.0.0 g))
  unfolding add_value
  entered k property s g e f r =
      let there = same_entry k s.stored_key_map property r.property e f r.stored in
      rw (there.0, there.1, r.read) (put-Holds_self address key r.property.type payload g)

  both : (a b : Bool) → (a && b) ≡ true → (a ≡ true) × (b ≡ true)
  both a b h = (ground arith, ground arith)

  missing :
      (k : Text) (s : Server S.Store)
      → k ≡ key
      → HashMap.find k s.stored_key_map ≡ none
      → IsReadable S key payload s
      → ⊥
  missing k s e f r =
      let h : none ≡ some r.property =
        sym f ∙ ap (λ j. HashMap.find j s.stored_key_map) e ∙ r.stored in
      cc h

  add_key-Goes :
      (a k : Text) (found : Option KeyProperty) (s : Server S.Store) (g : GossipMap)
      → HashMap.find k s.stored_key_map ≡ found
      → IsReadable S key payload s
      → Ensures (Goes (a == address && k == key) (s, g)) (add_key S config a k found (s, g))
  unfolding add_key
  add_key-Goes a k none s g e r = returns (record {
    readable = r;
    net = refl;
    keeps = λ h. h;
    enters = λ h. absurd (missing k s ((==_iff k key).0 (both (a == address) (k == key) h).1) e r);
  })
  add_key-Goes a k (some property) s g e r =
      Ensures-bind (λ read. read ≡ S.get property.type k s.store)
        (process_get S k property.type s.store) _
        (Ensures-eq _ (λ read h. process_get-eq_ok S k property.type s.store read h))
        (λ read h. rw h (
          returns (record {
            readable = read-IsReadable k property s e r;
            net = refl;
            keeps = λ i. add_value-Holding a k property.type _ _ g i;
            enters = λ i.
                let (x, y) = both (a == address) (k == key) i in
                rw ((==_iff a address).0 x) (entered k property s g ((==_iff k key).0 y) e r);
          })))

  Goes-trans :
      (b c : Bool) (p q : GossipProgress S config) {m : Run (GossipProgress S config)}
      → Goes b p q
      → Ensures (Goes c q) m
      → Ensures (Goes (b || c) p) m
  Goes-trans b c p q h (returns k) = returns (record {
    readable = k.readable;
    net = k.net ∙ h.net;
    keeps = λ i. k.keeps (h.keeps i);
    enters = λ i. elim (Bool-cases b) [
      | inl first ↦ k.keeps (h.enters first)
      | inr later ↦ k.enters (let j : (b || c) ≡ true = i in ground arith)
    ];
  })
  Goes-trans b c p q h faults = faults

  Goes-as :
      (b c : Bool) (p : GossipProgress S config) {m : Run (GossipProgress S config)}
      → b ≡ c
      → Ensures (Goes b p) m
      → Ensures (Goes c p) m
  Goes-as b c p e h = rw (← e) h

  add_keys-Goes :
      (a : Text) (keys : List Text) (p : GossipProgress S config)
      → IsReadable S key payload p.0
      → Ensures (Goes (a == address && HashSet.contains key keys) p) (add_keys S config a keys p)
  unfolding add_keys HashSet.contains
  add_keys-Goes a [] p r = returns (record {
    readable = r;
    net = refl;
    keeps = λ h. h;
    enters = λ h. absurd (let j : (a == address && false) ≡ true = h in ground arith);
  })
  add_keys-Goes a (k ∷ keys) (s, g) r =
      Ensures-bind (Goes (a == address && k == key) (s, g))
        (add_key S config a k (HashMap.find k s.stored_key_map) (s, g)) _
        (add_key-Goes a k (HashMap.find k s.stored_key_map) s g refl r)
        (λ q h.
          Goes-as _ _ (s, g) (distribute (a == address) (k == key) (HashSet.contains key keys))
            (Goes-trans _ _ (s, g) q h (add_keys-Goes a keys q h.readable)))
    where
      distribute : (x y z : Bool) → (x && y || x && z) ≡ (x && (y || z))
      distribute x y z = ground arith

  -- Whether an entry of the map names the key for the address.
  named : AddressKeysetMap → Bool
  named [] = false
  named ((a, keys) ∷ m) = (a == address && HashSet.contains key keys) || named m

  IsSent-named : (m : AddressKeysetMap) → IsSent m key address → named m ≡ true
  unfolding named HashMap.find HashSet.contains
  IsSent-named [] h = cc
  IsSent-named ((a, keys) ∷ m) h = elim (Bool-cases (a == address)) [
    | inl same ↦ let k : HashSet.contains key keys ≡ true = rw same at h in rw (same, k) refl
    | inr other ↦ let k : IsSent m key address = rw other at h in rw other (IsSent-named m k)
  ]

  gather-Goes :
      (m : AddressKeysetMap) (p : GossipProgress S config)
      → IsReadable S key payload p.0
      → Ensures (Goes (named m) p) (gather S config m p)
  unfolding gather named
  gather-Goes [] p r =
      returns (record { readable = r; net = refl; keeps = λ h. h; enters = λ h. cc })
  gather-Goes ((a, keys) ∷ m) (s, g) r =
      let g' = HashMap.assign a (opened (HashMap.find a g)) g in
      Ensures-bind (Goes (a == address && HashSet.contains key keys) (s, g))
        (add_keys S config a keys (s, g')) _
        (Ensures-mono _
          (λ q h. record {
            readable = h.readable;
            net = h.net;
            keeps = λ i. h.keeps (opened-Holds a address key payload g i);
            enters = h.enters;
          })
          (add_keys-Goes a keys (s, g') r))
        (λ q h. Goes-trans _ _ (s, g) q h (gather-Goes m q h.readable))

  -- A send_gossip that returns has sent, to each address, each key that the map has there and that can
  -- be read, with what the read gives.
  pub send_gossip-Delivers :
      (m : AddressKeysetMap) (s : Server S.Store)
      → IsSent m key address
      → IsReadable S key payload s
      → Ensures (λ s'. Delivers s.net s'.net address key payload) (send_gossip S config m s)
  unfolding send_gossip HashMap.find
  send_gossip-Delivers m s i r =
      Ensures-bind (Goes (named m) (s, [])) (gather S config m (s, [])) _ (gather-Goes m (s, []) r)
        (λ q h. returns (record {
          more = outgoing q.1;
          sent = send_all-sent q.1 q.0.net ∙ ap (λ (n : Net). n.sent ++ outgoing q.1) h.net;
          carried = outgoing-carries address key payload q.1 (h.enters (IsSent-named m i));
        }))
