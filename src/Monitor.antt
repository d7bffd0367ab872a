-- ===== src/Monitor.antt =====
-- The monitoring process: the variables of `main` in src/monitor/monitoring.cpp, its constants, and the
-- nodes that it adds and removes (src/monitor/elasticity.cpp).
pub mod Membership
pub mod Departures
pub mod Storage
pub mod Feedback
pub mod Replication
pub mod Movement
use anna.Prelude.{
  ℕ, ◌+◌, ◌-◌, ◌/◌, ◌%◌, ◌==◌, list_eq, nat_eq, Bool, true, false, List, [], ◌∷◌, ◌++◌,
  if◌then◌else◌,
}
use anna.Containers.HashMap
use anna.Containers.HashMap.{HashMap}
use anna.Text.{Text, codes, to_string}
use anna.Messages.{Net, send, text}
use anna.Metadata.{KeyReplication}
use anna.Threads.{ServerThread, self_depart_connect_address, depart_done_connect_address}
use anna.Ring.Responsible.{Library, GlobalRingMap}

-- The arithmetic of `double`, which is the machine's.
pub record Double : Type 1 where
  pub D : Type 0
  pub of_nat : ℕ → D
  pub add : D → D → D
  pub multiply : D → D → D
  pub divide : D → D → D
  pub less : D → D → Bool

-- What the process is started with: its address, that of the management node, the numbers of threads
-- of the tiers, and the policies that are on.
pub record MonitorConfig : Type 0 where
  pub lib : Library
  pub ip : Text
  pub management_ip : Text
  pub memory_thread_count : ℕ
  pub ebs_thread_count : ℕ
  pub minimum_replica_number : ℕ
  pub enable_elasticity : Bool
  pub enable_tiering : Bool
  pub enable_selective_rep : Bool

-- StorageStats, and OccupancyStats with the occupancy and the epoch
abbrev pub StorageStats : Type 0
StorageStats = HashMap Text (HashMap ℕ ℕ)

abbrev pub OccupancyStats : Type 0 → Type 0
OccupancyStats D = HashMap Text (HashMap ℕ (D × ℕ))

pub record Monitor (D : Type 0) : Type 0 where
  pub global_hash_rings : GlobalRingMap
  pub key_replication_map : HashMap Text KeyReplication
  pub routing_ips : List Text
  -- by the addresses of a node, "public/private"
  pub memory_storage : StorageStats
  pub ebs_storage : StorageStats
  pub memory_occupancy : OccupancyStats D
  pub ebs_occupancy : OccupancyStats D
  -- for each key and thread, "public/private:tid", the number of accesses
  pub key_access_frequency : HashMap Text (HashMap Text ℕ)
  pub key_access_summary : HashMap Text ℕ
  pub key_size : HashMap Text ℕ
  pub user_latency : HashMap Text D
  pub user_throughput : HashMap Text D
  pub latency_miss_ratio_map : HashMap Text (D × ℕ)
  -- how many nodes were asked for and have not joined, and what is being removed
  pub new_memory_count : ℕ
  pub new_ebs_count : ℕ
  pub departing_node_map : HashMap Text ℕ
  pub removing_memory_node : Bool
  pub removing_ebs_node : Bool
  -- the reading of the clock that the grace period began with
  pub grace_start : ℕ
  pub net : Net

-- The node names in messages to the management node.
pub data NodeType : Type 0 where
  memory_node ebs_node : NodeType

abbrev pub node_type_name : NodeType → Text
node_type_name memory_node = codes "memory"
node_type_name ebs_node = codes "ebs"

-- "tcp://" + management_ip + ":7001"
abbrev pub management_address : Text → Text
management_address management_ip = codes "tcp://" ++ (management_ip ++ codes ":7001")

module _ {D : Type 0} (config : MonitorConfig) where
  -- `grace_start = std::chrono::system_clock::now()`
  abbrev pub restart_grace : Monitor D → Monitor D
  restart_grace m = record m {
    grace_start = config.lib.clock m.net.ticks;
    net = record m.net { ticks = m.net.ticks + 1 };
  }

  abbrev pub with_new : NodeType → ℕ → Monitor D → Monitor D
  with_new memory_node number m = record m { new_memory_count = number }
  with_new ebs_node number m = record m { new_ebs_count = number }

  abbrev pub with_removing : NodeType → Bool → Monitor D → Monitor D
  with_removing memory_node removing m = record m { removing_memory_node = removing }
  with_removing ebs_node removing m = record m { removing_ebs_node = removing }

  -- The callers pass new_memory_count for "memory" and new_ebs_count for "ebs".
  unfoldable pub add_node : NodeType → ℕ → Monitor D → Monitor D
  add_node tier number m = with_new tier number (record m {
    net =
        send (management_address config.management_ip)
          (text (codes "add:" ++ (to_string number ++ codes ":" ++ node_type_name tier))) m.net;
  })

  -- The number of acknowledgements that are waited for is that of the memory tier for every node.
  unfoldable pub remove_node : ServerThread → NodeType → Monitor D → Monitor D
  remove_node node tier m = with_removing tier true (record m {
    departing_node_map =
        HashMap.assign node.private_ip config.memory_thread_count m.departing_node_map;
    net =
        send (self_depart_connect_address node) (text (depart_done_connect_address config.ip))
          m.net;
  })
