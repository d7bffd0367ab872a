-- ===== src/Kvs/Replication/Steps.antt =====
-- What each step of the replication response handler leaves as it was: the lattice types, the keys of
-- the changeset, and, but for the two erasures, what waits.
use anna.Prelude.{
  ℕ, ◌==◌, ◌≡◌, refl, ◌∙◌, list_eq, nat_eq, Bool, true, false, some, List, [], ◌∷◌, if◌then◌else◌,
}
use anna.Containers.HashMap.{HashMap}
use anna.Containers.HashSet
use anna.Text.{Text}
use anna.Messages.{LatticeType, RequestType, Net, type_beq}
use anna.Metadata.{tier_eq, ReplicationFactor}
use anna.Run.{Run, ok, Ensures, returns, faults, Ensures-if, Ensures-eq, Ensures-bind}
use anna.Threads.{ServerThread, id}
use anna.Ring.Walk.{has}
use anna.Kvs.{Serializers, PendingRequest, PendingGossip, Config, Server}
use anna.Kvs.Process.{
  process_put, put_value, process_put-eq_ok, mismatch, stored_type, count_access,
}
use anna.Kvs.Effects.{stored_type-assign}
use anna.Kvs.UserRequest.{serve, accept_put}
use anna.Kvs.UserRequest.Types.{Serves, serve-Serves, accept_put-Serves}
use anna.Kvs.Replication.{
  get_or_put, waiting_tuple, settle_silently, settle, settle_all, settle_if, absorb_pending,
  gossip_if,
}

-- What every step keeps of the stored keys.
pub record Keeps {T : Type 0} (s s' : Server T) : Type 0 where
  pub types :
      (k : Text) (t : LatticeType)
      → stored_type k s.stored_key_map ≡ some t
      → stored_type k s'.stored_key_map ≡ some t
  pub kept :
      (k : Text)
      → HashSet.contains k s.local_changeset ≡ true
      → HashSet.contains k s'.local_changeset ≡ true

-- A step that leaves what waits.
pub record Step {T : Type 0} (s s' : Server T) : Type 0 where
  pub keeps : Keeps s s'
  pub pending : s'.pending_requests ≡ s.pending_requests
  pub gossip : s'.pending_gossip ≡ s.pending_gossip

module _ {T : Type 0} where
  pub Keeps-same :
      (s s' : Server T)
      → s'.stored_key_map ≡ s.stored_key_map
      → s'.local_changeset ≡ s.local_changeset
      → Keeps s s'
  Keeps-same s s' e f = record { types = λ k t h. rw e h; kept = λ k h. rw f h }

  pub Keeps-trans : {s s' s'' : Server T} → Keeps s s' → Keeps s' s'' → Keeps s s''
  Keeps-trans a b = record {
    types = λ k t h. b.types k t (a.types k t h);
    kept = λ k h. b.kept k (a.kept k h);
  }

  Step-trans : {s s' s'' : Server T} → Step s s' → Step s' s'' → Step s s''
  Step-trans a b = record {
    keeps = Keeps-trans a.keeps b.keeps;
    pending = b.pending ∙ a.pending;
    gossip = b.gossip ∙ a.gossip;
  }

  Step-refl : (s : Server T) → Step s s
  Step-refl s = record { keeps = Keeps-same s s refl refl; pending = refl; gossip = refl }

  Step-net : (net : Net) (s : Server T) → Step s (record s { net = net })
  Step-net net s = record { keeps = Keeps-same s _ refl refl; pending = refl; gossip = refl }

  Step-count :
      (tracker : HashMap Text (List ℕ)) (count : ℕ) (net : Net) (s : Server T)
      → Step s (record s { key_access_tracker = tracker; access_count = count; net = net })
  Step-count tracker count net s = record {
    keeps = Keeps-same s _ refl refl;
    pending = refl;
    gossip = refl;
  }

  Step-Serves : (s s' : Server T) → Serves s s' → Step s s'
  Step-Serves s s' h = record {
    keeps = record { types = h.evolves.types; kept = h.evolves.kept };
    pending = h.pending;
    gossip = h.gossip;
  }

  onward :
      {m : Run (Server T)} {s s' : Server T} → Step s s' → Ensures (Step s') m → Ensures (Step s) m
  onward h (returns k) = returns (Step-trans h k)
  onward h faults = faults

module _ (S : Serializers) (config : Config) (parse : Text → ReplicationFactor) where
  settle_silently-Step :
      (key : Text) (request : PendingRequest) (s : Server S.Store) (type : RequestType)
      → Ensures (Step s) (settle_silently S config parse key request s type)
  unfolding settle_silently count_access
  settle_silently-Step key request s RequestType.put =
      Ensures-if (type_beq request.lattice_type LatticeType.none) _ _ (λ _. returns (Step-net _ s))
        (λ _.
          Ensures-if (mismatch key request.lattice_type s.stored_key_map) _ _
            (λ _. returns (Step-net _ s))
            (λ passed.
              Ensures-bind (λ q. Serves s q.0)
                (accept_put S config (waiting_tuple S config parse key request) s) _
                (accept_put-Serves S config (waiting_tuple S config parse key request) s passed)
                (λ q h. returns (Step-trans (Step-Serves s q.0 h) (Step-count _ _ _ q.0)))))
  settle_silently-Step key request s RequestType.get = returns (Step-net _ s)
  settle_silently-Step key request s RequestType.unspecified = returns (Step-net _ s)

  settle-Step :
      (key : Text) (request : PendingRequest) (s : Server S.Store) (responsible nobody : Bool)
      → Ensures (Step s) (settle S config parse key request s responsible nobody)
  unfolding settle count_access
  settle-Step key request s false true = returns (Step-net _ s)
  settle-Step key request s false false = returns (Step-net _ s)
  settle-Step key request s true true = settle_silently-Step key request s request.type
  settle-Step key request s true false =
      Ensures-bind (λ q. Serves s q.0)
        (serve S config (get_or_put request.type) (waiting_tuple S config parse key request) s) _
        (serve-Serves S config (get_or_put request.type) (waiting_tuple S config parse key request)
          s)
        (λ q h. returns (Step-trans (Step-Serves s q.0 h) (Step-count _ _ _ q.0)))

  settle_all-Step :
      (key : Text) (responsible : Bool) (requests : List PendingRequest) (s : Server S.Store)
      → Ensures (Step s) (settle_all S config parse key responsible requests s)
  unfolding settle_all
  settle_all-Step key responsible [] s = returns (Step-refl s)
  settle_all-Step key responsible (request ∷ requests) s =
      Ensures-bind (Step s) (settle S config parse key request s responsible (request.addr == [])) _
        (settle-Step key request s responsible (request.addr == []))
        (λ s' h. onward h (settle_all-Step key responsible requests s'))

  pub settle_if-Step :
      (key : Text) (requests : List PendingRequest) (r : (List ServerThread × Bool) × Net)
      (s : Server S.Store)
      → Ensures (Step s) (settle_if S config parse key requests r s)
  settle_if-Step key requests ((threads, false), net) s = returns (Step-net net s)
  settle_if-Step key requests ((threads, true), net) s =
      onward (Step-net net s)
        (settle_all-Step key (has id config.wt threads) requests (record s { net = net }))

  absorb_pending-Step :
      (key : Text) (gossip : List PendingGossip) (s : Server S.Store)
      → Ensures (Step s) (absorb_pending S config parse key gossip s)
  unfolding absorb_pending put_value
  absorb_pending-Step key [] s = returns (Step-refl s)
  absorb_pending-Step key (g ∷ gossip) s =
      Ensures-bind (Step s)
        (if mismatch key g.lattice_type s.stored_key_map
          then ok s
          else process_put S key g.lattice_type g.payload s)
        _
        (Ensures-if (mismatch key g.lattice_type s.stored_key_map) _ _ (λ _. returns (Step-refl s))
          (λ passed. Ensures-eq _ (λ s' e.
            rw (process_put-eq_ok S key g.lattice_type g.payload s s' e) (record {
              keeps = record {
                types = λ k t. stored_type-assign key k _ t s.stored_key_map passed;
                kept = λ k h. h;
              };
              pending = refl;
              gossip = refl;
            }))))
        (λ s' h. onward h (absorb_pending-Step key gossip s'))

  pub gossip_if-Step :
      (key : Text) (gossip : List PendingGossip) (r : (List ServerThread × Bool) × Net)
      (s : Server S.Store)
      → Ensures (Step s) (gossip_if S config parse key gossip r s)
  gossip_if-Step key gossip ((threads, false), net) s = returns (Step-net net s)
  gossip_if-Step key gossip ((threads, true), net) s =
      Ensures-if (has id config.wt threads) _ _
        (λ _. onward (Step-net net s) (absorb_pending-Step key gossip (record s { net = net })))
        (λ _. returns (Step-net _ s))
