-- ===== src/Monitor/Movement.antt =====
-- movement_policy of src/monitor/movement_policy.cpp: keys move to memory and to disk by how often they
-- are read.
pub mod Fits
use anna.Prelude.{
  ℕ, zero, suc, ◌+◌, ◌-◌, ◌*◌, ◌/◌, ◌%◌, ◌^◌, ◌==◌, list_eq, nat_eq, nat_beq, ltb, leb, Bool, true,
  false, not, ◌&&◌, List, [], ◌∷◌, if◌then◌else◌,
}
use anna.Containers.HashMap
use anna.Containers.HashMap.{HashMap}
use anna.Text.{Text}
use anna.Metadata.{Tier, memory, disk, tier_eq, KeyReplication, no_replication, is_metadata}
use anna.Run.{Run, ok, fault, ◌>>=◌}
use anna.Ring.Responsible.{GlobalRingMap}
use anna.Monitor.{Monitor, MonitorConfig, NodeType, memory_node, ebs_node, add_node}
use anna.Monitor.Storage.{grace_period}
use anna.Monitor.Replication.{
  Peers, create_new_replication_vector, same_replication, change_replication_factor,
}

-- What the policy reads of SummaryStats, by its computations on doubles: the storage that is free in
-- each tier, how many nodes a tier needs with so much more storage, and whether a count of accesses is
-- not over the mean.
pub record Demand : Type 0 where
  pub free_memory : ℕ
  pub free_ebs : ℕ
  pub memory_nodes_needed : ℕ → ℕ
  pub ebs_nodes_needed : ℕ → ℕ
  pub is_cold : ℕ → Bool
  pub memory_node_count : ℕ
  pub ebs_node_count : ℕ

pub record Chosen : Type 0 where
  pub requests : HashMap Text KeyReplication
  pub required_storage : ℕ
  pub overflow : Bool

abbrev pub none_chosen : Chosen
none_chosen = record { requests = []; required_storage = 0; overflow = false }

-- `required_storage += key_size[key]`, on 64 bits, and the test against the free storage
unfoldable pub choose : ℕ → ℕ → Text → KeyReplication → Chosen → Chosen
choose free size key rep c =
    let required = (c.required_storage + size) % 2 ^ 64 in
    if ltb free required
    then record c { required_storage = required; overflow = true }
    else record c { required_storage = required; requests = HashMap.assign key rep c.requests }

abbrev pub global_of : Tier → KeyReplication → ℕ
global_of tier rep = HashMap.at 0 tier rep.global_replication

abbrev pub local_of : Tier → KeyReplication → ℕ
local_of tier rep = HashMap.at 0 tier rep.local_replication

-- `global_replication_[Tier::DISK] - 1`, on 32 bits
abbrev pub minus_one : ℕ → ℕ
minus_one n = (n + (2 ^ 32 - 1)) % 2 ^ 32

abbrev pub promoted : KeyReplication → KeyReplication
promoted rep =
    create_new_replication_vector ((global_of memory rep + 1) % 2 ^ 32)
      (minus_one (global_of disk rep)) (local_of memory rep) (local_of disk rep)

-- The four tests of the loops, of which `wanted` is that of the count and of the factor in memory.
unfoldable pub is_candidate : Bool → Bool → Text → HashMap Text ℕ → Bool
is_candidate metadata wanted key key_size = not metadata && wanted && HashMap.contains key key_size

-- A loop over key_access_summary, for the test and the new factors of each key.
unfoldable pub choose_keys :
    {D : Type 0}
    → Monitor D
    → ℕ
    → (ℕ → KeyReplication → Bool)
    → (KeyReplication → KeyReplication)
    → List (Text × ℕ)
    → Chosen
    → Run Chosen
choose_keys m free wanted change [] c = ok c
choose_keys m free wanted change ((key, access_count) ∷ summary) c = do
  metadata ← is_metadata key
  let rep = HashMap.at no_replication key m.key_replication_map
  choose_keys m free wanted change summary (
      if is_candidate metadata (wanted access_count rep) key m.key_size
      then choose free (HashMap.at 0 key m.key_size) key (change rep) c
      else c)

-- `access_count > kKeyPromotionThreshold`, which is 0, and not in memory
abbrev pub is_hot : ℕ → KeyReplication → Bool
is_hot access_count rep = ltb 0 access_count && nat_beq (global_of memory rep) 0

-- `access_count < kKeyDemotionThreshold`, which is 1, and in memory
abbrev pub is_unused : ℕ → KeyReplication → Bool
is_unused access_count rep = ltb access_count 1 && ltb 0 (global_of memory rep)

-- The keys that are no longer hot, where the minimum differs from what they have.
unfoldable pub dereplicate_keys :
    {D : Type 0}
    → Monitor D
    → (ℕ → Bool)
    → KeyReplication
    → List (Text × ℕ)
    → HashMap Text KeyReplication
    → Run (HashMap Text KeyReplication)
dereplicate_keys m is_cold minimum [] requests = ok requests
dereplicate_keys m is_cold minimum ((key, access_count) ∷ summary) requests = do
  metadata ← is_metadata key
  let same = same_replication (HashMap.at no_replication key m.key_replication_map) minimum
  dereplicate_keys m is_cold minimum summary (
      if not metadata && is_cold access_count && not same
      then HashMap.assign key minimum requests
      else requests)

-- `int time_elapsed` as it is compared with an `unsigned`, for two readings of the clock
unfoldable pub elapsed : ℕ → ℕ → ℕ
elapsed grace now =
    if leb grace now
    then ((now - grace) / 1000000000) % 2 ^ 32
    else (2 ^ 32 - ((grace - now) / 1000000000) % 2 ^ 32) % 2 ^ 32

module _ {D : Type 0} (config : MonitorConfig) where
  -- More nodes, where keys did not fit: `adding` is how many were asked for and did not join.
  unfoldable pub grow_for : NodeType → ℕ → ℕ → ℕ → Bool → ℕ → Monitor D → Monitor D
  grow_for tier adding needed count overflow time_elapsed m =
      if config.enable_elasticity
        && overflow
        && nat_beq adding 0
        && ltb grace_period time_elapsed
        && ltb count needed
      then add_node config tier (needed - count) m
      else m

module _ {D : Type 0} (config : MonitorConfig) (peers : Peers) (local_hash_rings : GlobalRingMap)
    (demand : Demand) where
  -- "promote hot keys to memory tier", with the time that was measured
  unfoldable pub promote : ℕ → Monitor D → Run ((Monitor D × ℕ) × ℕ)
  promote rid m = do
    c ← choose_keys m demand.free_memory is_hot promoted m.key_access_summary none_chosen
    (m', rid') ← change_replication_factor config peers local_hash_rings c.requests rid m
    let time = elapsed m'.grace_start (config.lib.clock m'.net.ticks)
    let m'' = record m' { net = record m'.net { ticks = m'.net.ticks + 1 } }
    ok (
      (
        grow_for config memory_node m''.new_memory_count
            (demand.memory_nodes_needed c.required_storage) demand.memory_node_count c.overflow time
            m'',
        rid',
      ),
      time,
    )

  -- "demote cold keys to ebs tier"
  unfoldable pub demote : ℕ → ℕ → Monitor D → Run (Monitor D × ℕ)
  demote time rid m = do
    c ←
        choose_keys m demand.free_ebs is_unused
          (λ rep. create_new_replication_vector 0 config.minimum_replica_number 1 1)
          m.key_access_summary none_chosen
    (m', rid') ← change_replication_factor config peers local_hash_rings c.requests rid m
    ok (
      grow_for config ebs_node m'.new_ebs_count (demand.ebs_nodes_needed c.required_storage)
          demand.ebs_node_count c.overflow time m',
      rid',
    )

  unfoldable pub move_tiers : ℕ → Monitor D → Run (Monitor D × ℕ)
  move_tiers rid m = do ((m', rid'), time) ← promote rid m; demote time rid' m'

  -- "reduce the replication factor of some keys that are not so hot anymore"
  unfoldable pub dereplicate : ℕ → Monitor D → Run (Monitor D × ℕ)
  dereplicate rid m = do
    requests ←
        dereplicate_keys m demand.is_cold
          (create_new_replication_vector 1 (minus_one config.minimum_replica_number) 1 1)
          m.key_access_summary []
    change_replication_factor config peers local_hash_rings requests rid m

  unfoldable pub movement_policy : ℕ → Monitor D → Run (Monitor D × ℕ)
  movement_policy rid m = do
    (m', rid') ← (if config.enable_tiering then move_tiers rid m else ok (m, rid))
    if config.enable_selective_rep then dereplicate rid' m' else ok (m', rid')
