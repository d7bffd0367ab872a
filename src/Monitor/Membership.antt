-- ===== src/Monitor/Membership.antt =====
-- The monitor's view of the membership: membership_handler of src/monitor/membership_handler.cpp.
use anna.Prelude.{
  ℕ, zero, suc, ◌+◌, ◌-◌, ◌==◌, list_eq, nat_eq, List, [], ◌∷◌, ◌++◌, if◌then◌else◌, pos,
}
use anna.Containers.HashMap
use anna.Containers.HashMap.{HashMap}
use anna.Text.{Text, codes, split, to_string}
use anna.Metadata.{Tier, tier_unspecified, memory, disk, routing, tier_eq}
use anna.Run.{Run, ok, fault, out_of_range, ◌>>=◌}
use anna.Ring.HashRing
use anna.Ring.HashRing.{HashRing, global_hasher}
use anna.Kvs.Membership.{colon, Announced, announced, set_ring}
use anna.Monitor.{Monitor, MonitorConfig, restart_grace}

-- `for (unsigned i = 0; i < …; i++) erase(new_server_private_ip + ":" + std::to_string(i))`, by the
-- rounds left
unfoldable pub erase_threads : Text → ℕ → ℕ → HashMap Text ℕ → HashMap Text ℕ
erase_threads private_ip zero i accesses = accesses
erase_threads private_ip (suc rounds) i accesses =
    erase_threads private_ip rounds (i + 1)
      (HashMap.erase (private_ip ++ colon ∷ to_string i) accesses)

-- `for (auto &key_access_pair : key_access_frequency)`
unfoldable pub forget_accesses :
    Text → ℕ → HashMap Text (HashMap Text ℕ) → HashMap Text (HashMap Text ℕ)
forget_accesses private_ip thread_count [] = []
forget_accesses private_ip thread_count ((key, accesses) ∷ frequency) =
    (key, erase_threads private_ip thread_count 0 accesses)
    ∷ forget_accesses private_ip thread_count frequency

module _ {D : Type 0} (config : MonitorConfig) where
  -- The insertion, with a join count of 0, and the grace period.
  abbrev pub insert_server : Announced → Monitor D → Monitor D
  insert_server node m =
      let ring =
        (HashRing.insert (global_hasher config.lib.std_hash) node.public_ip node.private_ip (pos 0)
          0 (HashMap.at HashRing.empty node.tier m.global_hash_rings)).1 in
      record m { global_hash_rings = set_ring node.tier ring m.global_hash_rings }

  -- Counts only go down while they are not zero, as subtraction does here.
  unfoldable pub take_join : Tier → Announced → Monitor D → Monitor D
  take_join memory node m =
      let m' = insert_server node m in
      restart_grace config (record m' { new_memory_count = m'.new_memory_count - 1 })
  take_join disk node m =
      let m' = insert_server node m in
      restart_grace config (record m' { new_ebs_count = m'.new_ebs_count - 1 })
  take_join routing node m = record m { routing_ips = m.routing_ips ++ node.public_ip ∷ [] }
  take_join tier_unspecified node m = m

  abbrev pub remove_server : Announced → Monitor D → Monitor D
  remove_server node m =
      let ring =
        HashRing.remove (global_hasher config.lib.std_hash) node.public_ip node.private_ip 0
          (HashMap.at HashRing.empty node.tier m.global_hash_rings) in
      record m { global_hash_rings = set_ring node.tier ring m.global_hash_rings }

  -- What the monitor forgets of a departed server.
  unfoldable pub forget_server : Tier → Text → Monitor D → Monitor D
  forget_server memory private_ip m = record m {
    memory_storage = HashMap.erase private_ip m.memory_storage;
    memory_occupancy = HashMap.erase private_ip m.memory_occupancy;
    key_access_frequency =
        forget_accesses private_ip config.memory_thread_count m.key_access_frequency;
  }
  forget_server disk private_ip m = record m {
    ebs_storage = HashMap.erase private_ip m.ebs_storage;
    ebs_occupancy = HashMap.erase private_ip m.ebs_occupancy;
    key_access_frequency =
        forget_accesses private_ip config.ebs_thread_count m.key_access_frequency;
  }
  forget_server routing private_ip m = m
  forget_server tier_unspecified private_ip m = m

  unfoldable pub by_type : Text → Announced → Monitor D → Monitor D
  by_type type node m =
      if type == codes "join"
      then take_join node.tier node m
      else if type == codes "depart"
      then forget_server node.tier node.private_ip (remove_server node m)
      else m

  unfoldable pub take_parts : List Text → Monitor D → Run (Monitor D)
  take_parts [] m = fault out_of_range
  take_parts (type ∷ v) m = do node ← announced v; ok (by_type type node m)

  unfoldable pub membership_handler : Text → Monitor D → Run (Monitor D)
  membership_handler serialized m = take_parts (split serialized colon) m
