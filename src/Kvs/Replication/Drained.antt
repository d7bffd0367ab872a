-- ===== src/Kvs/Replication/Drained.antt =====
-- Once the replication factor of a key is known, nothing waits for it any longer.
use anna.Prelude.{
  ◌==◌, ==_iff, ◌≡◌, refl, ◌∙◌, sym, list_eq, nat_eq, Option, none, some, List, ◌∷◌, arith,
  if◌then◌else◌, ap, ◌⊎◌, inl, inr,
}
use anna.Containers.HashMap
use anna.Containers.HashMap.{HashMap}
use anna.Text.{Text}
use anna.Messages.{AnnaError, KeyTuple, KeyResponse}
use anna.Metadata.{tier_eq, get_key_from_metadata, KeyReplication, ReplicationFactor}
use anna.Run.{Run, ok, Ensures, returns, faults, Ensures-ok, Ensures-eq, Ensures-bind}
use anna.Kvs.{Serializers, PendingRequest, PendingGossip, Config, Server}
use anna.Kvs.Replication.{
  settle_if, responsible_threads, drain_requests, gossip_if, drain_gossip, drain, take_factor,
  replication_response_handler,
}
use anna.Kvs.Replication.Steps.{
  Keeps, Keeps-same, Keeps-trans, Step, settle_if-Step, gossip_if-Step,
}

-- The map without the key: it is gone, and what waits for other keys still waits.
abbrev Without : {V : Type 0} → Text → HashMap Text V → HashMap Text V → Type 0
Without key m m' = (j : Text) → HashMap.find j m' ≡ (if key == j then none else HashMap.find j m)

pub record Drains {T : Type 0} (key : Text) (s s' : Server T) : Type 0 where
  pub keeps : Keeps s s'
  pub requests :
      (j : Text)
      → HashMap.find j s'.pending_requests
        ≡ (if key == j then none else HashMap.find j s.pending_requests)
  pub gossip :
      (j : Text)
      → HashMap.find j s'.pending_gossip
        ≡ (if key == j then none else HashMap.find j s.pending_gossip)

Without-absent :
    {V : Type 0} (key : Text) (m : HashMap Text V) → HashMap.find key m ≡ none → Without key m m
Without-absent key m absent j = ground (arith, ==_iff key j)

record DrainsRequests {T : Type 0} (key : Text) (s s' : Server T) : Type 0 where
  keeps : Keeps s s'
  requests : Without key s.pending_requests s'.pending_requests
  gossip : s'.pending_gossip ≡ s.pending_gossip

module _ (S : Serializers) (config : Config) (parse : Text → ReplicationFactor) where
  drain_requests-lem :
      (key : Text) (s : Server S.Store) (o : Option (List PendingRequest))
      → HashMap.Distinct s.pending_requests
      → HashMap.find key s.pending_requests ≡ o
      → Ensures (DrainsRequests key s) (drain_requests S config parse key s o)
  unfolding drain_requests
  drain_requests-lem key s none d h = returns (record {
    keeps = Keeps-same s s refl refl;
    requests = Without-absent key s.pending_requests h;
    gossip = refl;
  })
  drain_requests-lem key s (some requests) d h =
      Ensures-bind (λ _. Unit) (responsible_threads S config parse key s) _
        (Ensures-eq _ (λ _ _. tt))
        (λ r _.
          Ensures-bind (Step s) (settle_if S config parse key requests r s)
            (λ s'. ok (record s' { pending_requests = HashMap.erase key s'.pending_requests }))
            (settle_if-Step S config parse key requests r s)
            (λ s' k. returns (record {
              keeps = Keeps-trans k.keeps (Keeps-same s' _ refl refl);
              requests = λ j. rw k.pending (HashMap.find-erase key j s.pending_requests d);
              gossip = k.gossip;
            })))

  drain_gossip-lem :
      (key : Text) (s : Server S.Store) (o : Option (List PendingGossip))
      → HashMap.Distinct s.pending_gossip
      → HashMap.find key s.pending_gossip ≡ o
      → Ensures
          (λ s'.
            Keeps s s'
            × (s'.pending_requests ≡ s.pending_requests)
            × Without key s.pending_gossip s'.pending_gossip)
          (drain_gossip S config parse key s o)
  unfolding drain_gossip
  drain_gossip-lem key s none d h =
      returns (Keeps-same s s refl refl, refl, Without-absent key s.pending_gossip h)
  drain_gossip-lem key s (some gossip) d h =
      Ensures-bind (λ _. Unit) (responsible_threads S config parse key s) _
        (Ensures-eq _ (λ _ _. tt))
        (λ r _.
          Ensures-bind (Step s) (gossip_if S config parse key gossip r s)
            (λ s'. ok (record s' { pending_gossip = HashMap.erase key s'.pending_gossip }))
            (gossip_if-Step S config parse key gossip r s)
            (λ s' k. returns (
              Keeps-trans k.keeps (Keeps-same s' _ refl refl),
              k.pending,
              λ j. rw k.gossip (HashMap.find-erase key j s.pending_gossip d),
            )))

  drain-Drains :
      (key : Text) (s : Server S.Store)
      → HashMap.Distinct s.pending_requests
      → HashMap.Distinct s.pending_gossip
      → Ensures (Drains key s) (drain S config parse key s)
  unfolding drain
  drain-Drains key s d e =
      Ensures-bind (DrainsRequests key s)
        (drain_requests S config parse key s (HashMap.find key s.pending_requests)) _
        (drain_requests-lem key s _ d refl)
        (λ s' k.
          combine s' k
            (drain_gossip-lem key s' (HashMap.find key s'.pending_gossip) (rw k.gossip e) refl))
    where
      combine :
          {m : Run (Server S.Store)} (s' : Server S.Store)
          → DrainsRequests key s s'
          → Ensures
              (λ s''.
                Keeps s' s''
                × (s''.pending_requests ≡ s'.pending_requests)
                × Without key s'.pending_gossip s''.pending_gossip)
              m
          → Ensures (Drains key s) m
      combine s' k (returns l) = returns (record {
        keeps = Keeps-trans k.keeps l.0;
        requests = λ j. ap (HashMap.find j) l.1 ∙ k.requests j;
        gossip = λ j. l.2 j ∙ ap (λ m. if key == j then none else HashMap.find j m) k.gossip;
      })
      combine s' k faults = faults

  -- The handler, where the factor becomes known and the replication map with it.
  known-Drains :
      (key : Text) (m : HashMap Text KeyReplication) (s s' : Server S.Store)
      → HashMap.Distinct s.pending_requests
      → HashMap.Distinct s.pending_gossip
      → drain S config parse key (record s { key_replication_map = m }) ≡ ok s'
      → Drains key s s'
  known-Drains key m s s' d e h =
      let s0 : Server S.Store = record s { key_replication_map = m } in
      let done = Ensures-ok {P = Drains key s0} _ (drain-Drains key s0 d e) h in
      record {
        keeps = Keeps-trans (Keeps-same s s0 refl refl) done.keeps;
        requests = done.requests;
        gossip = done.gossip;
      }

  handler-first :
      (r : KeyResponse) (tuple : KeyTuple) (rest : List KeyTuple) (s : Server S.Store)
      (error : AnnaError)
      → r.tuples ≡ tuple ∷ rest
      → tuple.error ≡ error
      → replication_response_handler S config parse r s
        ≡ take_factor S config parse (get_key_from_metadata tuple.key) tuple s error
  unfolding replication_response_handler
  handler-first r tuple rest s error first e = rw (first, e) refl

  -- After a response that carries a replication factor, or that says that none is stored, no
  -- request and no gossip waits for the key it is about any longer; what waits for other keys still
  -- does, every key that holds a value keeps its lattice type, and no key leaves the changeset.
  -- The two maps of what waits have no repeated keys, as hash tables do not.
  pub replication_response-Drains :
      (r : KeyResponse) (tuple : KeyTuple) (rest : List KeyTuple) (s s' : Server S.Store)
      → r.tuples ≡ tuple ∷ rest
      → (tuple.error ≡ AnnaError.no_error) ⊎ (tuple.error ≡ AnnaError.key_dne)
      → HashMap.Distinct s.pending_requests
      → HashMap.Distinct s.pending_gossip
      → replication_response_handler S config parse r s ≡ ok s'
      → Drains (get_key_from_metadata tuple.key) s s'
  unfolding take_factor
  replication_response-Drains r tuple rest s s' first (inl known) d e h =
      known-Drains _ _ s s' d e (sym (handler-first r tuple rest s _ first known) ∙ h)
  replication_response-Drains r tuple rest s s' first (inr absent) d e h =
      known-Drains _ _ s s' d e (sym (handler-first r tuple rest s _ first absent) ∙ h)
