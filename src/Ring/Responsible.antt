-- ===== src/Ring/Responsible.antt =====
-- Which threads hold a key: src/hash_ring/hash_ring.cpp.
pub mod Asks
pub mod Order
use anna.Prelude.{
  ℕ, zero, suc, ◌+◌, ◌%◌, ◌==◌, Eq, list_eq, nat_eq, Bool, true, false, Option, none, some, List,
  [], ◌∷◌, ◌++◌, map, length, if◌then◌else◌,
}
use anna.Containers.HashMap
use anna.Containers.HashMap.{HashMap}
use anna.Text.{Text}
use anna.Run.{Run, ok, fault, endless, no_threads, or_fault, ◌>>=◌}
use anna.Messages
use anna.Messages.{LatticeType, RequestType, Net, request, send, prepare_get_tuple, empty_request}
use anna.Metadata.{Tier, memory, tier_eq, KeyReplication, no_replication, get_metadata_key}
use anna.Threads.{ServerThread, server_thread, id, key_request_connect_address}
use anna.Ring.ConsistentHashMap
use anna.Ring.Walk.{walk}
use anna.Ring.HashRing
use anna.Ring.HashRing.{HashRing, Hasher, global_hasher, local_hasher}

-- What the code takes from elsewhere: `std::hash<string>`, `rand_r`, `rand`, the clock, and the run-time constant
-- kDefaultLocalReplication, which is read from the configuration.
pub record Library : Type 0 where
  pub std_hash : Text → ℕ
  -- the number, and the seed that is left
  pub rand_r : ℕ → ℕ × ℕ
  -- the number, and the hidden state that is left
  pub rand : ℕ → ℕ × ℕ
  pub default_local_replication : ℕ
  -- what the n-th reading of `std::chrono::system_clock::now()` gives, in nanoseconds
  pub clock : ℕ → ℕ

abbrev pub GlobalRingMap : Type 0
GlobalRingMap = HashMap Tier HashRing

abbrev pub second {ℓ} : {A B : Type ℓ} → A × B → B
second (a, b) = b

-- kMetadataReplicationFactor of include/kvs_common.hpp
abbrev pub metadata_replication_factor : ℕ
metadata_replication_factor = 1

-- The loop of both functions from the position that `find` gives. As many rounds as the theorem
-- `walk-distinct` asks for: where these run out, no number of rounds ends the loop.
from_position :
    {K : Type 0} ⦃e : Eq K⦄
    → (ServerThread → K)
    → ℕ
    → List (ℕ × ServerThread)
    → List (ℕ × ServerThread)
    → Run (List ServerThread)
from_position key rep nodes [] = ok []
from_position key rep nodes (n ∷ rest) = or_fault endless (
    walk key (length (n ∷ rest) + (length nodes + 1)) rep (map second nodes) (map second (n ∷ rest))
      ([], 0))

unfoldable pub responsible_global : Hasher → Text → ℕ → HashRing → Run (List ServerThread)
unfolding from_position
responsible_global hasher key global_rep ring =
    from_position id global_rep ring.nodes (ConsistentHashMap.find (hasher.of_key key) ring.nodes)

-- The numbers of the threads; `tids.insert(…).second` tells whether a number is new.
unfoldable pub responsible_local : Hasher → Text → ℕ → HashRing → Run (List ℕ)
unfolding from_position
responsible_local hasher key local_rep ring = do
  threads ←
      from_position (λ st. st.tid) local_rep ring.nodes
        (ConsistentHashMap.find (hasher.of_key key) ring.nodes)
  ok (map (λ st. st.tid) threads)

-- The threads of one node, under each of its numbers.
abbrev pub spread : ServerThread → List ℕ → List ServerThread
spread thread tids = map (λ tid. server_thread thread.public_ip thread.private_ip tid) tids

-- `for (const ServerThread &thread : threads)` around responsible_local
per_node : List ServerThread → Run (List ℕ) → Run (List ServerThread)
per_node [] local = ok []
per_node (thread ∷ threads) local = do
  tids ← local
  rest ← per_node threads local
  ok (spread thread tids ++ rest)

module _ (lib : Library) where
  unfoldable pub get_responsible_threads_metadata :
      Text → HashRing → HashRing → Run (List ServerThread)
  unfolding per_node
  get_responsible_threads_metadata key global_memory_hash_ring local_memory_hash_ring = do
    threads ←
        responsible_global (global_hasher lib.std_hash) key metadata_replication_factor
          global_memory_hash_ring
    per_node threads (
        responsible_local (local_hasher lib.std_hash) key lib.default_local_replication
          local_memory_hash_ring)

  -- `std::next(begin(threads), n % threads.size())`
  unfoldable pub pick : ℕ → List ServerThread → Run ServerThread
  pick n [] = fault no_threads
  pick zero (t ∷ threads) = ok t
  pick (suc n) (t ∷ threads) = pick n threads

  unfoldable pub issue_replication_factor_request :
      Text → Text → HashRing → HashRing → Net → Run Net
  unfolding pick
  issue_replication_factor_request response_address key global_ring local_ring net = do
    let replication_key = get_metadata_key key
    threads ← get_responsible_threads_metadata replication_key global_ring local_ring
    let (n, seed) = lib.rand_r net.seed
    target ← pick (n % length threads) threads
    let key_request =
        prepare_get_tuple
          (record empty_request { type = RequestType.get; response_address = response_address })
          replication_key LatticeType.lww
    ok (
        send (key_request_connect_address target) (request key_request)
          (record net { seed = seed }))

  -- The threads of one tier, by the replication factors of the key.
  tier_threads :
      Text → KeyReplication → GlobalRingMap → GlobalRingMap → Tier → Run (List ServerThread)
  unfolding per_node
  tier_threads key rep global_rings local_rings tier = do
    threads ←
        responsible_global (global_hasher lib.std_hash) key
          (HashMap.at 0 tier rep.global_replication) (HashMap.at HashRing.empty tier global_rings)
    per_node threads (
        responsible_local (local_hasher lib.std_hash) key (HashMap.at 0 tier rep.local_replication)
          (HashMap.at HashRing.empty tier local_rings))

  -- `for (const Tier &tier : tiers)`
  all_tier_threads :
      Text → KeyReplication → GlobalRingMap → GlobalRingMap → List Tier → Run (List ServerThread)
  unfolding tier_threads
  all_tier_threads key rep global_rings local_rings [] = ok []
  all_tier_threads key rep global_rings local_rings (tier ∷ tiers) = do
    threads ← tier_threads key rep global_rings local_rings tier
    rest ← all_tier_threads key rep global_rings local_rings tiers
    ok (threads ++ rest)

  -- The threads and `succeed`; without a replication factor the request for it is sent.
  unfoldable pub get_responsible_threads :
      Text
      → Text
      → Bool
      → GlobalRingMap
      → GlobalRingMap
      → HashMap Text KeyReplication
      → List Tier
      → Net
      → Run ((List ServerThread × Bool) × Net)
  unfolding all_tier_threads
  get_responsible_threads response_address key true global_rings local_rings replication tiers net =
      do
        threads ←
            get_responsible_threads_metadata key (HashMap.at HashRing.empty memory global_rings)
              (HashMap.at HashRing.empty memory local_rings)
        ok ((threads, true), net)
  get_responsible_threads response_address key false global_rings local_rings replication tiers
        net =
      elim (HashMap.find key replication) [
        | none ↦ do
          net' ←
              issue_replication_factor_request response_address key
                (HashMap.at HashRing.empty memory global_rings)
                (HashMap.at HashRing.empty memory local_rings) net
          ok (([], false), net')
        | some rep ↦ do
          threads ← all_tier_threads key rep global_rings local_rings tiers
          ok ((threads, true), net)
      ]
