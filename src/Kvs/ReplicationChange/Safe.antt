-- ===== src/Kvs/ReplicationChange/Safe.antt =====
-- The whole of replication_change_handler: which keys it removes, and where they went.
use anna.Prelude.{
  ◌-◌, ◌≡◌, refl, ap, ◌∙◌, list_eq, nat_eq, true, none, List, [], ◌⊎◌, inl, inr, if◌then◌else◌,
  Bool-cases,
}
use anna.Containers.HashMap
use anna.Containers.HashMap.{HashMap}
use anna.Containers.HashSet
use anna.Text.{Text}
use anna.Metadata.{ReplicationFactor}
use anna.Run.{ok, ◌>>=◌, Ensures, Ensures-mono, Ensures-ok, Ensures-eq, Ensures-bind}
use anna.Threads.{replication_change_connect_address}
use anna.Kvs.{Serializers, Config, Server}
use anna.Kvs.Drop.{Drops}
use anna.Kvs.Gossip.Keeps.{Keeps, send_gossip-Keeps}
use anna.Kvs.Gossip.{send_gossip}
use anna.Kvs.Membership.{as_first, tell_threads}
use anna.Kvs.Gossip.Passes.{PassedOn, WentOut, Extends-WentOut, send_gossip-PassedOn, value_of}
use anna.Kvs.Redistribute.Covers.{IsSent}
use anna.Route.{set_all_replications}
use anna.Kvs.ReplicationChange.{Change, change_keys, drop_keys, replication_change_handler}
use anna.Kvs.ReplicationChange.GivenUp.{
  IsGivenUp, IsGivenUp-map, Hands, Hands-server, Updates-net, onward,
}
use anna.Kvs.ReplicationChange.Handled.{
  change_keys-Hands, drop_keys-Drops, tell_workers-Extends, as_first-Extends,
}

module _ (S : Serializers) (config : Config) where
  -- The key was given up, and what could be read of it went to each thread that is responsible for it.
  abbrev pub IsHandedOver : List ReplicationFactor → Server S.Store → Server S.Store → Text → Type 0
  IsHandedOver updates s s' key = IsGivenUp config updates s (PassedOn S s s' key) key

  -- What the handler did: the factors of the updates are set; the rings are as they were; and each
  -- stored key is as it was, or is gone and was handed over.
  pub record IsSafe (updates : List ReplicationFactor) (s s' : Server S.Store) : Type 0 where
    pub factors : s'.key_replication_map ≡ set_all_replications updates s.key_replication_map
    pub global : s'.global_hash_rings ≡ s.global_hash_rings
    pub local : s'.local_hash_rings ≡ s.local_hash_rings
    pub stored :
        (k : Text)
        → (HashMap.find k s'.stored_key_map ≡ HashMap.find k s.stored_key_map)
          ⊎ ((HashMap.find k s'.stored_key_map ≡ none) × IsHandedOver updates s s' k)

  module _ (updates : List ReplicationFactor) (s : Server S.Store) (c : Change S.Store)
      (h : Hands config updates
        (record { server = s; addr_keyset_map = []; remove_set = [] })
        c) where
    -- What is in the map goes out, from the first state of the sockets to the last.
    went_out :
        (sent s' : Server S.Store) (k a : Text)
        → send_gossip S config c.addr_keyset_map c.server ≡ ok sent
        → s'.net ≡ sent.net
        → IsSent c.addr_keyset_map k a
        → PassedOn S s s' k a
    unfolding value_of
    went_out sent s' k a went e i =
        let same : value_of S c.server k ≡ value_of S s k =
          ap (λ (r : Server S.Store). value_of S r k) h.server.same in
        let out : PassedOn S c.server sent k a =
          send_gossip-PassedOn S config c.addr_keyset_map c.server sent k a went i in
        let out' : WentOut (value_of S s k) c.server.net s'.net k a = rw (same, ← e) at out in
        Extends-WentOut (value_of S s k) s.net c.server.net s'.net k a h.server.extends out'

    -- Where nothing was marked before, what is marked is given up.
    handed_over :
        (sent s' : Server S.Store) (k : Text)
        → send_gossip S config c.addr_keyset_map c.server ≡ ok sent
        → s'.net ≡ sent.net
        → HashSet.contains k c.remove_set ≡ true
        → IsHandedOver updates s s' k
    unfolding HashSet.contains
    handed_over sent s' k went e i = elim (h.removed k i) [
      | inl none_before ↦ absurd (cc none_before)
      | inr g ↦ IsGivenUp-map config updates s _ _ k (λ a j. went_out sent s' k a went e j) g
    ]

    kept_or_gone :
        (sent s' : Server S.Store) (k : Text)
        → send_gossip S config c.addr_keyset_map c.server ≡ ok sent
        → s'.net ≡ sent.net
        → HashMap.find k s'.stored_key_map
          ≡ (if HashSet.contains k c.remove_set then none else HashMap.find k s.stored_key_map)
        → (HashMap.find k s'.stored_key_map ≡ HashMap.find k s.stored_key_map)
          ⊎ ((HashMap.find k s'.stored_key_map ≡ none) × IsHandedOver updates s s' k)
    kept_or_gone sent s' k went e f = elim (Bool-cases (HashSet.contains k c.remove_set)) [
      | inl gone ↦ inr (rw gone at f, handed_over sent s' k went e gone)
      | inr kept ↦ inl (rw kept at f)
    ]

    sent-IsSafe :
        HashMap.Distinct s.stored_key_map
        → Ensures (IsSafe updates s) (do
          sent ← send_gossip S config c.addr_keyset_map c.server
          drop_keys S c.remove_set sent)
    sent-IsSafe d =
        Ensures-bind
          (λ sent.
            (send_gossip S config c.addr_keyset_map c.server ≡ ok sent) × Keeps c.server sent)
          (send_gossip S config c.addr_keyset_map c.server) _
          (Ensures-eq _
            (λ sent e. (e, Ensures-ok _ (send_gossip-Keeps S config c.addr_keyset_map c.server) e)))
          (λ sent (went, keeps).
            let same : sent ≡ record s {
              store = sent.store;
              key_replication_map = set_all_replications updates s.key_replication_map;
              net = sent.net;
            } =
              keeps
              ∙ ap (λ (r : Server S.Store). record r { store = sent.store; net = sent.net })
                  h.server.same in
            let stored : sent.stored_key_map ≡ s.stored_key_map =
              ap (λ (r : Server S.Store). r.stored_key_map) same in
            let d' : HashMap.Distinct sent.stored_key_map = rw stored d in
            Ensures-mono {P = Drops c.remove_set sent} (drop_keys S c.remove_set sent)
              (λ s' k. record {
                factors =
                    ap (λ (r : Server S.Store). r.key_replication_map) k.rest
                    ∙ ap (λ (r : Server S.Store). r.key_replication_map) same;
                global =
                    ap (λ (r : Server S.Store). r.global_hash_rings) k.rest
                    ∙ ap (λ (r : Server S.Store). r.global_hash_rings) same;
                local =
                    ap (λ (r : Server S.Store). r.local_hash_rings) k.rest
                    ∙ ap (λ (r : Server S.Store). r.local_hash_rings) same;
                stored = λ key.
                    kept_or_gone sent s' key went (ap (λ (r : Server S.Store). r.net) k.rest)
                      (k.stored key ∙ (rw stored refl));
              })
              (drop_keys-Drops S c.remove_set sent d'))

  -- After a handled change of replication factors, where the keys of the stored map stand once: the
  -- rings are as they were, the factors are those that the updates set one after the other, and of the
  -- stored keys each has its entry as before, or none. For a key that has none, the threads were
  -- looked up, on these rings and with the factors up to an update of the key; this thread is not
  -- among them, and if the value could be read, then a message with it went to each of them.
  pub replication_change-IsSafe :
      (serialized : Text) (updates : List ReplicationFactor) (s s' : Server S.Store)
      → HashMap.Distinct s.stored_key_map
      → replication_change_handler S config serialized updates s ≡ ok s'
      → IsSafe updates s s'
  unfolding replication_change_handler
  replication_change-IsSafe serialized updates s s' d =
      let net =
        as_first config (tell_threads config replication_change_connect_address serialized) s.net in
      let first : Change S.Store = record { server = s; addr_keyset_map = []; remove_set = [] } in
      let start : Change S.Store = record first { server = record s { net = net } } in
      Ensures-ok {P = IsSafe updates s} _ (
        Ensures-bind (Hands config updates first) (change_keys config updates start) _
          (onward config [] updates first start
            (Hands-server config [] first start.server (
              Updates-net config s net (
                as_first-Extends config
                  (tell_threads config replication_change_connect_address serialized) s.net
                  (tell_workers-Extends replication_change_connect_address config.wt
                    (config.thread_num - 1) 1 serialized s.net))))
            (change_keys-Hands config updates start))
          (λ c h. sent-IsSafe updates s c h d))
