-- ===== src/Kvs.antt =====
-- A worker thread of a storage node: its state (the variables of `run` in src/kvs/server.cpp), its
-- constants, and the interface of the serializers (include/kvs/server_utils.hpp) that the handlers
-- use.
pub mod Process
pub mod Effects
pub mod UserRequest
pub mod Gossip
pub mod Replication
pub mod KvStore
pub mod Memory
pub mod Disk
pub mod Primary
pub mod Drop
pub mod Redistribute
pub mod Round
pub mod Caches
pub mod Start
pub mod Membership
pub mod ReplicationChange
use anna.Prelude.{
  ℤ, ℕ, ◌+◌, ◌%◌, ◌==◌, ◌≡◌, ◌≢◌, list_eq, nat_eq, Bool, true, false, Option, none, some, List, [],
  ◌∷◌, ◌++◌, if◌then◌else◌,
}
use anna.Containers.HashMap
use anna.Containers.HashMap.{HashMap}
use anna.Text.{Text}
use anna.Messages.{LatticeType, RequestType, AnnaError, no_error, Net}
use anna.Metadata.{Tier, KeyReplication}
use anna.Threads.{ServerThread}
use anna.Ring.Responsible.{Library, GlobalRingMap}

-- SerializerMap, for the types that have a serializer: `get` returns the payload and the error that
-- it set, `put` the size. What one key holds does not depend on the writes to another. A memory node
-- keeps this; the files of an EBS node only where different keys do not name one file.
pub record Serializers : Type 1 where
  pub Store : Type 0
  pub get : LatticeType → Text → Store → (Text × AnnaError) × Store
  pub put : LatticeType → Text → Text → Store → ℕ × Store
  pub remove : LatticeType → Text → Store → Store
  pub get-put_ne :
      (t u : LatticeType) (j k payload : Text) (s : Store)
      → j ≢ k
      → (get t j (put u k payload s).1).0 ≡ (get t j s).0
  pub get-get_ne :
      (t u : LatticeType) (j k : Text) (s : Store)
      → j ≢ k
      → (get t j (get u k s).1).0 ≡ (get t j s).0
  -- a value that was found is found again
  pub get-get :
      (t : LatticeType) (k payload : Text) (s : Store)
      → (get t k s).0 ≡ (payload, no_error)
      → (get t k (get t k s).1).0 ≡ (payload, no_error)

pub record KeyProperty : Type 0 where
  pub size : ℕ
  pub type : LatticeType

pub record PendingRequest : Type 0 where
  pub type : RequestType
  pub lattice_type : LatticeType
  pub payload : Text
  pub addr : Text
  pub response_id : Text

pub record PendingGossip : Type 0 where
  pub lattice_type : LatticeType
  pub payload : Text

-- What a thread is started with: itself (`wt`), its tier, the threads of its node, and the default
-- replication of each tier (`kTierMetadata[tier].default_replication_`).
pub record Config : Type 0 where
  pub lib : Library
  pub wt : ServerThread
  pub self_tier : Tier
  pub thread_num : ℕ
  pub default_replication : Tier → ℕ
  -- the count that the management node gave at the start, and the addresses of the configuration
  pub self_join_count : ℤ
  pub routing_ips : List Text
  pub monitoring_ips : List Text
  pub management_ip : Text

pub record Server (Store : Type 0) : Type 0 where
  pub global_hash_rings : GlobalRingMap
  pub local_hash_rings : GlobalRingMap
  pub pending_requests : HashMap Text (List PendingRequest)
  pub pending_gossip : HashMap Text (List PendingGossip)
  pub key_access_tracker : HashMap Text (List ℕ)
  pub stored_key_map : HashMap Text KeyProperty
  pub key_replication_map : HashMap Text KeyReplication
  pub local_changeset : List Text
  pub access_count : ℕ
  -- what is to be sent to, and removed after, the join of a node
  pub join_gossip_map : HashMap Text (List Text)
  pub join_remove_set : List Text
  -- the caches, the keys of each, and the caches of each key
  pub extant_caches : List Text
  pub cache_ip_to_keys : HashMap Text (List Text)
  pub key_to_cache_ips : HashMap Text (List Text)
  pub rid : ℕ
  pub store : Store
  pub net : Net

-- `m[key].push_back(v)`
abbrev pub push_back : {V : Type 0} → Text → V → HashMap Text (List V) → HashMap Text (List V)
push_back key v m = HashMap.assign key (HashMap.at [] key m ++ v ∷ []) m
