-- ===== src/Kvs/Gossip/Silent.antt =====
-- Gossip is silent: what comes in by gossip is not gossiped on.
use anna.Prelude.{
  ==_iff, ◌≡◌, refl, ◌∙◌, list_eq, nat_eq, Bool, true, false, Option, none, some, List, [], ◌∷◌,
  arith,
}
use mathlib.Core.Option
use anna.Containers.HashMap
use anna.Containers.HashMap.{HashMap}
use anna.Text.{Text}
use anna.Messages.{LatticeType, KeyTuple, KeyRequest, Net}
use anna.Metadata.{memory, tier_eq, is_metadata}
use anna.Run.{
  Run, ok, fault, null_serializer, Ensures, returns, faults, Ensures-if, Ensures-ok, Ensures-eq,
  Ensures-bind,
}
use anna.Threads.{ServerThread, id, replication_response_connect_address}
use anna.Ring.HashRing
use anna.Ring.Walk.{has}
use anna.Ring.Responsible.{get_responsible_threads, issue_replication_factor_request}
use anna.Kvs.{Serializers, KeyProperty, PendingGossip, Config, Server}
use anna.Kvs.Process.{process_put, put_value, process_put-eq_ok}
use anna.Kvs.Gossip.{
  GossipProgress, postpone_gossip, gossip_mismatch, absorb, place_gossip, gossip_tuple,
  gossip_tuples, gossip_handler, send_all,
}

-- The type of a key's entry, NONE included.
abbrev pub entry_type : Text → HashMap Text KeyProperty → Option LatticeType
entry_type k m = Option.map (λ p. p.type) (HashMap.find k m)

-- What gossip leaves as it was.
pub record Quiet {T : Type 0} (s s' : Server T) : Type 0 where
  pub types :
      (k : Text) (t : LatticeType)
      → entry_type k s.stored_key_map ≡ some t
      → entry_type k s'.stored_key_map ≡ some t
  pub changeset : s'.local_changeset ≡ s.local_changeset
  pub pending : s'.pending_requests ≡ s.pending_requests
  pub count : s'.access_count ≡ s.access_count
  pub tracker : s'.key_access_tracker ≡ s.key_access_tracker
  pub replication : s'.key_replication_map ≡ s.key_replication_map

module _ {T : Type 0} where
  -- A step that touches the pending gossip and the sockets only.
  Quiet-aside :
      (gossip : HashMap Text (List PendingGossip)) (net : Net) (s : Server T)
      → Quiet s (record s { pending_gossip = gossip; net = net })
  Quiet-aside gossip net s = record {
    types = λ _ _ h. h;
    changeset = refl;
    pending = refl;
    count = refl;
    tracker = refl;
    replication = refl;
  }

  pub Quiet-trans : {s s' s'' : Server T} → Quiet s s' → Quiet s' s'' → Quiet s s''
  Quiet-trans a b = record {
    types = λ k t h. b.types k t (a.types k t h);
    changeset = b.changeset ∙ a.changeset;
    pending = b.pending ∙ a.pending;
    count = b.count ∙ a.count;
    tracker = b.tracker ∙ a.tracker;
    replication = b.replication ∙ a.replication;
  }

entry_type-assign :
    (key k : Text) (p : KeyProperty) (t : LatticeType) (m : HashMap Text KeyProperty)
    → gossip_mismatch key p.type m ≡ false
    → entry_type k m ≡ some t
    → entry_type k (HashMap.assign key p m) ≡ some t
unfolding gossip_mismatch
entry_type-assign key k p t m passed h = ground (arith, HashMap.find-assign key k p m, ==_iff key k)

gossip_mismatch-absent :
    (key : Text) (t : LatticeType) (m : HashMap Text KeyProperty)
    → HashMap.find key m ≡ none
    → gossip_mismatch key t m ≡ false
unfolding gossip_mismatch
gossip_mismatch-absent key t m absent = ground arith

module _ (S : Serializers) (config : Config) where
  absorb-Quiet :
      (tuple : KeyTuple) (s : Server S.Store) → Ensures (Quiet s) (absorb S config tuple s)
  unfolding absorb put_value
  absorb-Quiet tuple s =
      Ensures-if (gossip_mismatch tuple.key tuple.lattice_type s.stored_key_map) _ _
        (λ _. returns (Quiet-aside _ _ s))
        (λ passed. Ensures-eq _ (λ s' e.
          let stored = process_put-eq_ok S tuple.key tuple.lattice_type tuple.payload s s' e in
          rw stored (record {
            types = λ k t. entry_type-assign tuple.key k _ t s.stored_key_map passed;
            changeset = refl;
            pending = refl;
            count = refl;
            tracker = refl;
            replication = refl;
          })))

  place_gossip-Quiet :
      (tuple : KeyTuple) (metadata : Bool) (threads : List ServerThread) (succeed : Bool)
      (p : GossipProgress S config)
      → Ensures (λ q. Quiet p.0 q.0) (place_gossip S config tuple metadata threads succeed p)
  unfolding place_gossip
  place_gossip-Quiet tuple metadata threads false (s, gossip_map) = returns (Quiet-aside _ _ s)
  place_gossip-Quiet tuple metadata threads true (s, gossip_map) =
      Ensures-if (has id config.wt threads) _ _
        (λ _.
          Ensures-bind (Quiet s) (absorb S config tuple s) _ (absorb-Quiet tuple s)
            (λ s' q. returns q))
        (λ _.
          Ensures-if metadata _ _ (λ _. returns (Quiet-aside _ _ s))
            (λ _.
              Ensures-bind (λ _. Unit)
                (issue_replication_factor_request config.lib
                  (replication_response_connect_address config.wt) tuple.key
                  (HashMap.at HashRing.empty memory s.global_hash_rings)
                  (HashMap.at HashRing.empty memory s.local_hash_rings) s.net)
                (λ net. ok (postpone_gossip S config tuple (record s { net = net }), gossip_map))
                (Ensures-eq _ (λ _ _. tt)) (λ net _. returns (Quiet-aside _ _ s))))

  with_net :
      {m : Run (GossipProgress S config)} (s : Server S.Store) (net : Net)
      → Ensures (λ q. Quiet (record s { net = net }) q.0) m
      → Ensures (λ q. Quiet s q.0) m
  with_net s net (returns h) = returns (Quiet-trans (Quiet-aside _ _ s) h)
  with_net s net faults = faults

  gossip_tuple-Quiet :
      (tuple : KeyTuple) (p : GossipProgress S config)
      → Ensures (λ q. Quiet p.0 q.0) (gossip_tuple S config tuple p)
  unfolding gossip_tuple
  gossip_tuple-Quiet tuple (s, gossip_map) =
      Ensures-bind (λ _. Unit) (is_metadata tuple.key) _ (Ensures-eq _ (λ _ _. tt))
        (λ metadata _.
          Ensures-bind (λ _. Unit)
            (get_responsible_threads config.lib (replication_response_connect_address config.wt)
              tuple.key metadata s.global_hash_rings s.local_hash_rings s.key_replication_map
              (config.self_tier ∷ []) s.net)
            _ (Ensures-eq _ (λ _ _. tt))
            (λ r _. with_net s (r.1) (
              place_gossip-Quiet tuple metadata (r.0).0 (r.0).1
                (record s { net = r.1 }, gossip_map))))

  onward :
      {m : Run (GossipProgress S config)} (p q : GossipProgress S config)
      → Quiet p.0 q.0
      → Ensures (λ r. Quiet q.0 r.0) m
      → Ensures (λ r. Quiet p.0 r.0) m
  onward p q h (returns k) = returns (Quiet-trans h k)
  onward p q h faults = faults

  gossip_tuples-Quiet :
      (tuples : List KeyTuple) (p : GossipProgress S config)
      → Ensures (λ q. Quiet p.0 q.0) (gossip_tuples S config tuples p)
  unfolding gossip_tuples
  gossip_tuples-Quiet [] p = returns (Quiet-aside _ _ p.0)
  gossip_tuples-Quiet (tuple ∷ rest) p =
      Ensures-bind (λ q. Quiet p.0 q.0) (gossip_tuple S config tuple p) _
        (gossip_tuple-Quiet tuple p) (λ q h. onward p q h (gossip_tuples-Quiet rest q))

  -- Gossip that is handled leaves the type of every entry, and marks nothing for gossip: the
  -- changeset, the waiting requests, the counts of accesses and the replication factors stay.
  pub gossip_handler-Quiet :
      (gossip : KeyRequest) (s s' : Server S.Store)
      → gossip_handler S config gossip s ≡ ok s'
      → Quiet s s'
  unfolding gossip_handler
  gossip_handler-Quiet gossip s s' = Ensures-ok {P = Quiet s} _ (
      Ensures-bind (λ q. Quiet s q.0) (gossip_tuples S config gossip.tuples (s, []))
        (λ p. ok (record p.0 { net = send_all p.1 p.0.net }))
        (gossip_tuples-Quiet gossip.tuples (s, []))
        (λ p h. returns (Quiet-trans h (Quiet-aside _ _ p.0))))

  absorb-none :
      (tuple : KeyTuple) (s : Server S.Store)
      → tuple.lattice_type ≡ LatticeType.none
      → HashMap.find tuple.key s.stored_key_map ≡ none
      → absorb S config tuple s ≡ fault null_serializer
  unfolding absorb process_put
  absorb-none tuple s type absent =
      rw (type, gossip_mismatch-absent tuple.key LatticeType.none s.stored_key_map absent) refl

  -- A responsible thread cannot take in a gossiped value without a lattice type: for a key that it
  -- has no entry of, it calls through a null pointer.
  pub place_gossip-none :
      (tuple : KeyTuple) (metadata : Bool) (threads : List ServerThread)
      (p : GossipProgress S config)
      → tuple.lattice_type ≡ LatticeType.none
      → has id config.wt threads ≡ true
      → HashMap.find tuple.key p.0.stored_key_map ≡ none
      → place_gossip S config tuple metadata threads true p ≡ fault null_serializer
  unfolding place_gossip
  place_gossip-none tuple metadata threads (s, gossip_map) type responsible absent =
      rw (responsible, absorb-none tuple s type absent) refl
