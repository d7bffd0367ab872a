-- ===== src/Kvs/UserRequest/Types.antt =====
-- A user request keeps the lattice types, and records every key that it changes.
use anna.Prelude.{
  ℕ, suc, ◌==◌, ◌≡◌, refl, list_eq, nat_eq, Bool, true, false, Option, none, some, List, [], ◌∷◌,
  ◌++◌, arith, inl, inr, ◌+◌, length-append, Bool-cases, length,
}
use anna.Containers.HashMap
use anna.Containers.HashSet
use anna.Text.{Text}
use anna.Messages.{LatticeType, RequestType, type_beq, KeyTuple, KeyRequest, Net}
use anna.Run.{Run, ok, Ensures, returns, faults, Ensures-if, Ensures-ok, Ensures-eq, Ensures-bind}
use anna.Ring.Walk.{has}
use anna.Ring.HashRing
use anna.Ring.Responsible.{get_responsible_threads, issue_replication_factor_request}
use anna.Metadata.{memory, tier_eq, is_metadata}
use anna.Threads.{ServerThread, id, replication_response_connect_address}
use anna.Kvs.{push_back, KeyProperty, Serializers, Config, Server}
use anna.Kvs.Process.{
  process_get, process_put, put_value, process_put-eq_ok, mismatch, count_access,
}
use anna.Kvs.Effects.{Evolves, Evolves-same, Evolves-trans, stored_type-assign}
use anna.Kvs.UserRequest.{
  Progress, postpone, serve, serve_get, accept_put, place, handle_tuple, handle_tuples, respond,
  user_request_handler,
}

module _ (S : Serializers) where
  -- A put of a value of some type, with its key recorded.
  pub put_value-Evolves :
      (key payload : Text) (t : LatticeType) (s : Server S.Store)
      → mismatch key t s.stored_key_map ≡ false
      → (let s' = put_value S key t payload s in
          Evolves s (record s' { local_changeset = HashSet.insert key s'.local_changeset }))
  unfolding put_value
  put_value-Evolves key payload t s passed =
      let p : KeyProperty = record { size = (S.put t key payload s.store).0; type = t } in
      record {
        types = λ k u. stored_type-assign key k p u s.stored_key_map passed;
        recorded = λ k. ground (
          arith,
          HashMap.find-assign key k p s.stored_key_map,
          HashSet.contains-insert key k s.local_changeset,
        );
        kept = λ k e. ground (arith, HashSet.contains-insert key k s.local_changeset);
      }

-- The requests that wait, over all keys.
unfoldable pub waiting : {V : Type 0} → HashMap.HashMap Text (List V) → ℕ
waiting [] = 0
waiting ((k, l) ∷ m) = length l + waiting m

pub waiting-assign :
    {V : Type 0} (k : Text) (l : List V) (m : HashMap.HashMap Text (List V))
    → waiting (HashMap.assign k l m) + length (HashMap.at [] k m) ≡ waiting m + length l
unfolding waiting HashMap.assign HashMap.find
waiting-assign k l [] = omega arith
waiting-assign k l ((j, n) ∷ m) = elim (Bool-cases (j == k)) [
  | inl same ↦ rw same (omega arith)
  | inr other ↦ rw other (omega (arith, waiting-assign k l m))
]

pub waiting-push_back :
    {V : Type 0} (k : Text) (v : V) (m : HashMap.HashMap Text (List V))
    → waiting (push_back k v m) ≡ waiting m + 1
waiting-push_back k v m = omega (
  arith,
  waiting-assign k (HashMap.at [] k m ++ v ∷ []) m,
  length-append {0} (HashMap.at [] k m) (v ∷ []),
)

-- One step of serving: the stored keys evolve, and no request is made to wait.
pub record Serves {T : Type 0} (s s' : Server T) : Type 0 where
  pub evolves : Evolves s s'
  pub pending : s'.pending_requests ≡ s.pending_requests
  pub gossip : s'.pending_gossip ≡ s.pending_gossip

-- One round of the loop: the stored keys evolve, and the tuple is answered or made to wait.
pub record Handles {T : Type 0} (n : ℕ) (p p' : Server T × List KeyTuple) : Type 0 where
  pub evolves : Evolves p.0 p'.0
  pub counted :
      length p'.1 + waiting p'.0.pending_requests ≡ length p.1 + waiting p.0.pending_requests + n

module _ (S : Serializers) (config : Config) where
  serve_get-Serves :
      (tuple : KeyTuple) (s : Server S.Store) (o : Option LatticeType)
      → Ensures (λ p. Serves s p.0) (serve_get S config tuple s o)
  unfolding serve_get
  serve_get-Serves tuple s none =
      returns (record { evolves = Evolves-same s s refl refl; pending = refl; gossip = refl })
  serve_get-Serves tuple s (some t) =
      Ensures-bind (λ _. Unit) (process_get S tuple.key t s.store) _ (Ensures-eq _ (λ _ _. tt))
        (λ r _.
          returns (record { evolves = Evolves-same s _ refl refl; pending = refl; gossip = refl }))

  pub accept_put-Serves :
      (tuple : KeyTuple) (s : Server S.Store)
      → mismatch tuple.key tuple.lattice_type s.stored_key_map ≡ false
      → Ensures (λ p. Serves s p.0) (accept_put S config tuple s)
  unfolding accept_put put_value
  accept_put-Serves tuple s passed =
      Ensures-bind (λ s'. s' ≡ put_value S tuple.key tuple.lattice_type tuple.payload s)
        (process_put S tuple.key tuple.lattice_type tuple.payload s) _
        (Ensures-eq _
          (λ s' h. process_put-eq_ok S tuple.key tuple.lattice_type tuple.payload s s' h))
        (λ s' e. returns (record {
          evolves = rw e (put_value-Evolves S tuple.key tuple.payload tuple.lattice_type s passed);
          pending = rw e;
          gossip = rw e;
        }))

  pub serve-Serves :
      (type : RequestType) (tuple : KeyTuple) (s : Server S.Store)
      → Ensures (λ p. Serves s p.0) (serve S config type tuple s)
  unfolding serve
  serve-Serves RequestType.get tuple s = serve_get-Serves tuple s _
  serve-Serves RequestType.put tuple s =
      Ensures-if (type_beq tuple.lattice_type LatticeType.none) _ _
        (λ _.
          returns (record { evolves = Evolves-same s s refl refl; pending = refl; gossip = refl }))
        (λ _.
          Ensures-if (mismatch tuple.key tuple.lattice_type s.stored_key_map) _ _
            (λ _.
              returns
                (record { evolves = Evolves-same s s refl refl; pending = refl; gossip = refl }))
            (λ passed. accept_put-Serves tuple s passed))
  serve-Serves RequestType.unspecified tuple s =
      returns (record { evolves = Evolves-same s s refl refl; pending = refl; gossip = refl })

  place-Handles :
      (req : KeyRequest) (tuple : KeyTuple) (metadata : Bool) (threads : List ServerThread)
      (succeed : Bool) (p : Progress S config)
      → Ensures (Handles 1 p) (place S config req tuple metadata threads succeed p)
  unfolding place count_access
  place-Handles req tuple metadata threads false (s, tuples) = returns (record {
    evolves = Evolves-same s _ refl refl;
    counted = omega (arith, waiting-push_back tuple.key _ s.pending_requests);
  })
  place-Handles req tuple metadata threads true (s, tuples) =
      Ensures-if (has id config.wt threads) _ _
        (λ _.
          Ensures-bind (λ q. Serves s q.0) (serve S config req.type tuple s) _
            (serve-Serves req.type tuple s)
            (λ q h. returns (record {
              evolves = Evolves-trans h.evolves (Evolves-same q.0 _ refl refl);
              counted = rw h.pending (omega (arith, length-append {0} tuples));
            })))
        (λ _.
          Ensures-if metadata _ _
            (λ _. returns (record {
              evolves = Evolves-same s _ refl refl;
              counted = omega (arith, length-append {0} tuples);
            }))
            (λ _.
              Ensures-bind (λ _. Unit)
                (issue_replication_factor_request config.lib
                  (replication_response_connect_address config.wt) tuple.key
                  (HashMap.at HashRing.empty memory s.global_hash_rings)
                  (HashMap.at HashRing.empty memory s.local_hash_rings) s.net)
                (λ net. ok (postpone S config req tuple (record s { net = net }, tuples)))
                (Ensures-eq _ (λ _ _. tt))
                (λ net _. returns (record {
                  evolves = Evolves-same s _ refl refl;
                  counted = omega (arith, waiting-push_back tuple.key _ s.pending_requests);
                }))))

  handle_tuple-Handles :
      (req : KeyRequest) (tuple : KeyTuple) (p : Progress S config)
      → Ensures (Handles 1 p) (handle_tuple S config req tuple p)
  unfolding handle_tuple
  handle_tuple-Handles req tuple (s, tuples) =
      Ensures-bind (λ _. Unit) (is_metadata tuple.key) _ (Ensures-eq _ (λ _ _. tt))
        (λ metadata _.
          Ensures-bind (λ _. Unit)
            (get_responsible_threads config.lib (replication_response_connect_address config.wt)
              tuple.key metadata s.global_hash_rings s.local_hash_rings s.key_replication_map
              (config.self_tier ∷ []) s.net)
            _ (Ensures-eq _ (λ _ _. tt))
            (λ r _.
              same_start (r.1) (
                place-Handles req tuple metadata (r.0).0 (r.0).1 (record s { net = r.1 }, tuples))))
    where
      same_start :
          {m : Run (Progress S config)} (net : Net)
          → Ensures (Handles 1 (record s { net = net }, tuples)) m
          → Ensures (Handles 1 (s, tuples)) m
      same_start net (returns h) = returns (record {
        evolves = Evolves-trans (Evolves-same s _ refl refl) h.evolves;
        counted = h.counted;
      })
      same_start net faults = faults

  handle_tuples-Handles :
      (req : KeyRequest) (ts : List KeyTuple) (p : Progress S config)
      → Ensures (Handles (length ts) p) (handle_tuples S config req ts p)
  unfolding handle_tuples
  handle_tuples-Handles req [] p =
      returns (record { evolves = Evolves-same p.0 p.0 refl refl; counted = omega arith })
  handle_tuples-Handles req (tuple ∷ ts) p =
      Ensures-bind (Handles 1 p) (handle_tuple S config req tuple p) _
        (handle_tuple-Handles req tuple p) (λ q h. onward q h (handle_tuples-Handles req ts q))
    where
      onward :
          {m : Run (Progress S config)} (q : Progress S config)
          → Handles 1 p q
          → Ensures (Handles (length ts) q) m
          → Ensures (Handles (suc (length ts)) p) m
      onward q h (returns k) = returns (record {
        evolves = Evolves-trans h.evolves k.evolves;
        counted = omega (arith, h.counted, k.counted);
      })
      onward q h faults = faults

  respond-Evolves :
      (req : KeyRequest) (p : Progress S config) → Evolves p.0 (respond S config req p)
  respond-Evolves req (s, []) = Evolves-same s s refl refl
  respond-Evolves req (s, tp ∷ tuples) = elim (Bool-cases (req.response_address == [])) [
    | inl nobody ↦ rw nobody (Evolves-same s s refl refl)
    | inr client ↦ rw client (Evolves-same s _ refl refl)
  ]

  -- A user request that is handled leaves the lattice type of every key that holds a value, puts
  -- each key whose entry it changed into the changeset, and takes none out of it.
  pub user_request-Evolves :
      (req : KeyRequest) (s s' : Server S.Store)
      → user_request_handler S config req s ≡ ok s'
      → Evolves s s'
  unfolding user_request_handler
  user_request-Evolves req s s' = Ensures-ok {P = Evolves s} _ (
      Ensures-bind (Handles (length req.tuples) (s, [])) _ (λ p. ok (respond S config req p))
        (handle_tuples-Handles req req.tuples (s, []))
        (λ p h. returns (Evolves-trans h.evolves (respond-Evolves req p))))

  -- Each tuple of a request is answered in the response, or waits with the key's other requests for
  -- its replication factor: none is lost, and none is both.
  pub handle_tuples-counted :
      (req : KeyRequest) (s s' : Server S.Store) (tuples : List KeyTuple)
      → handle_tuples S config req req.tuples (s, []) ≡ ok (s', tuples)
      → length tuples + waiting s'.pending_requests ≡ waiting s.pending_requests + length req.tuples
  handle_tuples-counted req s s' tuples h =
      let done = Ensures-ok _ (handle_tuples-Handles req req.tuples (s, [])) h in
      omega (arith, done.counted)
