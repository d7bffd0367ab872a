-- ===== src/Monitor/Replication/Failed.antt =====
-- Which changes of replication factors fail, by the answers of the servers.
use anna.Prelude.{
  ◌==◌, ◌&&◌, ◌||◌, arith, ◌≡◌, list_eq, nat_eq, Bool, true, false, Option, none, some, List, [],
  ◌∷◌, if◌then◌else◌,
}
use anna.Containers.HashMap.{HashMap}
use anna.Containers.HashSet
use anna.Text.{Text}
use anna.Messages.{KeyTuple, KeyRequest, KeyResponse, Net, send, request}
use anna.Metadata.{get_key_from_metadata}
use anna.Monitor.Replication.{
  failed_tuples, rejected_tuples, is_wrong_thread, failed_of, Peers, make_requests,
}

-- The keys of the tuples, and of those that were refused.
unfoldable pub names : Text → List KeyTuple → Bool
names k [] = false
names k (tuple ∷ tuples) = get_key_from_metadata tuple.key == k || names k tuples

unfoldable pub refuses : Text → List KeyTuple → Bool
refuses k [] = false
refuses k (tuple ∷ tuples) =
    (is_wrong_thread tuple.error && get_key_from_metadata tuple.key == k) || refuses k tuples

-- A request that has the key got no answer, or one that refuses the key.
abbrev pub lost : Text → KeyRequest → Option KeyResponse → Bool
lost k r none = names k r.tuples
lost k r (some res) = refuses k res.tuples

unfoldable pub fails : Peers → Text → HashMap Text KeyRequest → Bool
fails peers k [] = false
fails peers k ((address, r) ∷ more) = lost k r (peers.answer address r) || fails peers k more

contains-failed :
    (k : Text) (tuples : List KeyTuple) (failed : List Text)
    → HashSet.contains k (failed_tuples tuples failed)
      ≡ (HashSet.contains k failed || names k tuples)
unfolding failed_tuples names
contains-failed k [] failed = ground arith
contains-failed k (tuple ∷ tuples) failed = ground (
  arith,
  contains-failed k tuples (HashSet.insert (get_key_from_metadata tuple.key) failed),
  HashSet.contains-insert (get_key_from_metadata tuple.key) k failed,
)

contains-rejected :
    (k : Text) (tuples : List KeyTuple) (failed : List Text)
    → HashSet.contains k (rejected_tuples tuples failed)
      ≡ (HashSet.contains k failed || refuses k tuples)
unfolding rejected_tuples refuses
contains-rejected k [] failed = ground arith
contains-rejected k (tuple ∷ tuples) failed =
    one (contains-rejected k tuples) (is_wrong_thread tuple.error)
  where
    one :
        ((f : List Text)
          → HashSet.contains k (rejected_tuples tuples f)
            ≡ (HashSet.contains k f || refuses k tuples))
        → (wrong : Bool)
        → HashSet.contains k (
            rejected_tuples tuples
              (if wrong then HashSet.insert (get_key_from_metadata tuple.key) failed else failed))
          ≡ (HashSet.contains k failed
              || ((wrong && get_key_from_metadata tuple.key == k) || refuses k tuples))
    one later true = ground (
      arith,
      later (HashSet.insert (get_key_from_metadata tuple.key) failed),
      HashSet.contains-insert (get_key_from_metadata tuple.key) k failed,
    )
    one later false = ground (arith, later failed)

contains-failed_of :
    (k : Text) (r : KeyRequest) (answer : Option KeyResponse) (failed : List Text)
    → HashSet.contains k (failed_of r answer failed)
      ≡ (HashSet.contains k failed || lost k r answer)
contains-failed_of k r none failed = contains-failed k r.tuples failed
contains-failed_of k r (some res) failed = contains-rejected k res.tuples failed

pub contains-make_requests :
    (peers : Peers) (k : Text) (requests : HashMap Text KeyRequest) (failed : List Text) (net : Net)
    → HashSet.contains k (make_requests peers requests (failed, net)).0
      ≡ (HashSet.contains k failed || fails peers k requests)
unfolding make_requests fails
contains-make_requests peers k [] failed net = ground arith
contains-make_requests peers k ((address, r) ∷ more) failed net = ground (
  arith,
  contains-make_requests peers k more (failed_of r (peers.answer address r) failed)
      (send address (request r) net),
  contains-failed_of k r (peers.answer address r) failed,
)
