-- ===== src/Monitor/Storage.antt =====
-- storage_policy of src/monitor/storage_policy.cpp: nodes for the storage that is used.
use anna.Prelude.{
  ℕ, ◌+◌, ◌-◌, ◌/◌, ◌%◌, list_eq, nat_eq, nat_beq, ltb, Bool, not, ◌&&◌, map, length, max,
  if◌then◌else◌,
}
use anna.Containers.HashMap
use anna.Metadata.{disk, tier_eq}
use anna.Run.{Run, ok, ◌>>=◌}
use anna.Ring.HashRing
use anna.Ring.Responsible.{pick, second}
use anna.Monitor.{Monitor, MonitorConfig, memory_node, ebs_node, add_node, remove_node}

-- What the policy reads of SummaryStats, and how many nodes the tiers have. `low_ebs_consumption` is
-- the comparison `avg_ebs_consumption_percentage < kMinEbsNodeConsumption` of doubles.
pub record Usage : Type 0 where
  pub required_memory_node : ℕ
  pub required_ebs_node : ℕ
  pub low_ebs_consumption : Bool
  pub memory_node_count : ℕ
  pub ebs_node_count : ℕ

abbrev pub node_addition_batch_size : ℕ
node_addition_batch_size = 2

abbrev pub grace_period : ℕ
grace_period = 120

abbrev pub min_ebs_tier_size : ℕ
min_ebs_tier_size = 0

module _ {D : Type 0} (config : MonitorConfig) where
  -- `time_elapsed > kGracePeriod`, in seconds, where a clock that went back is not over it; and the
  -- reading of the clock.
  abbrev pub grace_is_over : Monitor D → Bool
  grace_is_over m = ltb grace_period ((config.lib.clock m.net.ticks - m.grace_start) / 1000000000)

  abbrev pub ticked : Monitor D → Monitor D
  ticked m = record m { net = record m.net { ticks = m.net.ticks + 1 } }

  unfoldable pub grow_memory : Usage → Monitor D → Monitor D
  grow_memory u m =
      if nat_beq m.new_memory_count 0 && ltb u.memory_node_count u.required_memory_node
      then (if grace_is_over m
          then add_node config memory_node node_addition_batch_size (ticked m)
          else ticked m)
      else m

  unfoldable pub grow_ebs : Usage → Monitor D → Monitor D
  grow_ebs u m =
      if config.enable_tiering
        && nat_beq m.new_ebs_count 0
        && ltb u.ebs_node_count u.required_ebs_node
      then (if grace_is_over m
          then add_node config ebs_node node_addition_batch_size (ticked m)
          else ticked m)
      else m

  -- "pick a random ebs node and send remove node command"
  unfoldable pub remove_random : Monitor D → Run (Monitor D)
  remove_random m = do
    let nodes = (HashMap.at HashRing.empty disk m.global_hash_rings).nodes
    let (n, state) = config.lib.rand m.net.rand_state
    node ← pick config.lib (n % length nodes) (map second nodes)
    ok (remove_node config node ebs_node (record m { net = record m.net { rand_state = state } }))

  unfoldable pub shrink_ebs : Usage → Monitor D → Run (Monitor D)
  shrink_ebs u m =
      if config.enable_tiering
        && u.low_ebs_consumption
        && not m.removing_ebs_node
        && ltb (max u.required_ebs_node min_ebs_tier_size) u.ebs_node_count
      then (if grace_is_over m then remove_random (ticked m) else ok (ticked m))
      else ok m

  unfoldable pub storage_policy : Usage → Monitor D → Run (Monitor D)
  storage_policy u m =
      if config.enable_elasticity then shrink_ebs u (grow_ebs u (grow_memory u m)) else ok m
