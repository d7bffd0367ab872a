-- ===== src/Kvs/UserRequest.antt =====
-- user_request_handler of src/kvs/user_request_handler.cpp.
pub mod Types
use anna.Prelude.{
  ℕ, ◌+◌, ◌<◌, ◌==◌, ◌≡◌, list_eq, nat_eq, Bool, true, false, not, ◌&&◌, ◌||◌, Option, none, some,
  List, [], ◌∷◌, ◌++◌, length, if◌then◌else◌, ltb, nat_beq,
}
use anna.Containers.HashMap
use anna.Containers.HashSet
use anna.Text.{Text}
use anna.Messages.{
  LatticeType, RequestType, AnnaError, KeyTuple, empty_tuple, KeyRequest, KeyResponse, no_error,
  Net, send, response, type_beq,
}
use anna.Metadata.{Tier, memory, tier_eq, is_metadata}
use anna.Run.{Run, ok, fault, ◌>>=◌}
use anna.Threads.{ServerThread, id, replication_response_connect_address}
use anna.Ring.HashRing
use anna.Ring.Walk.{has}
use anna.Ring.Responsible.{get_responsible_threads, issue_replication_factor_request}
use anna.Kvs.{Serializers, PendingRequest, Config, Server, push_back}
use anna.Kvs.Process.{process_get, process_put, mismatch, stored_type, count_access}

module _ (S : Serializers) (config : Config) where
  -- The server and the tuples of the response so far.
  abbrev pub Progress : Type 0
  Progress = Server S.Store × List KeyTuple

  -- `response.add_tuples()`
  abbrev pub answer : KeyTuple → Progress → Progress
  answer tp (s, tuples) = (s, tuples ++ tp ∷ [])

  -- `pending_requests[key].push_back(PendingRequest(…))`
  abbrev pub postpone : KeyRequest → KeyTuple → Progress → Progress
  postpone req tuple (s, tuples) = (
    record s {
      pending_requests =
          push_back tuple.key
            (record {
              type = req.type;
              lattice_type = tuple.lattice_type;
              payload = tuple.payload;
              addr = req.response_address;
              response_id = req.request_id;
            })
            s.pending_requests;
    },
    tuples,
  )

  -- A GET, by the type under which the key is stored.
  unfoldable pub serve_get :
      KeyTuple → Server S.Store → Option LatticeType → Run (Server S.Store × KeyTuple)
  serve_get tuple s none = ok (s, record (empty_tuple tuple.key) { error = AnnaError.key_dne })
  serve_get tuple s (some type) = do
    ((payload, error), store) ← process_get S tuple.key type s.store
    ok (
      record s { store = store },
      record (empty_tuple tuple.key) { lattice_type = type; payload = payload; error = error },
    )

  -- A PUT that passed both checks.
  unfoldable pub accept_put : KeyTuple → Server S.Store → Run (Server S.Store × KeyTuple)
  accept_put tuple s = do
    s' ← process_put S tuple.key tuple.lattice_type tuple.payload s
    ok (
      record s' { local_changeset = HashSet.insert tuple.key s'.local_changeset },
      record (empty_tuple tuple.key) { lattice_type = tuple.lattice_type },
    )

  -- The branches of a thread that is responsible, by the type of the request: the tuple that answers.
  unfoldable pub serve : RequestType → KeyTuple → Server S.Store → Run (Server S.Store × KeyTuple)
  serve RequestType.get tuple s = serve_get tuple s (stored_type tuple.key s.stored_key_map)
  serve RequestType.put tuple s =
      if type_beq tuple.lattice_type LatticeType.none
      then ok (s, empty_tuple tuple.key)
      else if mismatch tuple.key tuple.lattice_type s.stored_key_map
      then ok (s, empty_tuple tuple.key)
      else accept_put tuple s
  serve RequestType.unspecified tuple s = ok (s, empty_tuple tuple.key)

  -- `tp->set_invalidate(true)`, where the client has cached another number of addresses
  abbrev pub mark : KeyTuple → ℕ → KeyTuple → KeyTuple
  mark tuple n tp = record tp {
    invalidate = ltb 0 tuple.address_cache_size && not (nat_beq tuple.address_cache_size n);
  }

  -- What a round does once the responsible threads are known, or known to be unknown.
  unfoldable pub place :
      KeyRequest → KeyTuple → Bool → List ServerThread → Bool → Progress → Run Progress
  place req tuple metadata threads false (s, tuples) = ok (postpone req tuple (s, tuples))
  place req tuple metadata threads true (s, tuples) =
      if has id config.wt threads
      then (do
        (s', tp) ← serve req.type tuple s
        ok (answer (mark tuple (length threads) tp) (count_access config tuple.key s', tuples)))
      else if metadata
      then ok (
          answer
            (record (empty_tuple tuple.key) {
              lattice_type = tuple.lattice_type;
              error = AnnaError.wrong_thread;
            })
            (s, tuples))
      else (do
        net ←
            issue_replication_factor_request config.lib
              (replication_response_connect_address config.wt) tuple.key
              (HashMap.at HashRing.empty memory s.global_hash_rings)
              (HashMap.at HashRing.empty memory s.local_hash_rings) s.net
        ok (postpone req tuple (record s { net = net }, tuples)))

  -- One round of the loop over `request.tuples()`.
  unfoldable pub handle_tuple : KeyRequest → KeyTuple → Progress → Run Progress
  handle_tuple req tuple (s, tuples) = do
    metadata ← is_metadata tuple.key
    ((threads, succeed), net) ←
        get_responsible_threads config.lib (replication_response_connect_address config.wt)
          tuple.key metadata s.global_hash_rings s.local_hash_rings s.key_replication_map
          (config.self_tier ∷ []) s.net
    place req tuple metadata threads succeed (record s { net = net }, tuples)

  unfoldable pub handle_tuples : KeyRequest → List KeyTuple → Progress → Run Progress
  handle_tuples req [] p = ok p
  handle_tuples req (tuple ∷ rest) p = handle_tuple req tuple p >>= handle_tuples req rest

  -- The response goes out if it has a tuple and the client an address.
  abbrev pub respond : KeyRequest → Progress → Server S.Store
  respond req (s, []) = s
  respond req (s, tp ∷ tuples) = if req.response_address == [] then s else record s {
    net =
        send req.response_address
          (response (record {
            type = req.type;
            tuples = tp ∷ tuples;
            response_id = req.request_id;
            error = no_error;
          }))
          s.net;
  }

  unfoldable pub user_request_handler : KeyRequest → Server S.Store → Run (Server S.Store)
  user_request_handler req s = do p ← handle_tuples req req.tuples (s, []); ok (respond req p)
