-- ===== src/Tests/Monitor.antt =====
-- Examples for a routing thread's membership, and for the monitor.
use anna.Prelude.{
  ℕ, ◌≤◌, ◌≡◌, refl, list_eq, nat_eq, arith, true, false, none, [], ◌∷◌, if◌then◌else◌,
}
use anna.Containers.HashMap
use anna.Text.{Text, codes, split}
use anna.Metadata.{memory, tier_eq, Tier, KeyReplication}
use anna.Run.{ok, fault, unparsed}
use anna.Ring.HashRing
use anna.Ring.HashRing.{HashRing}
use anna.Ring.HashRing.Membership.{IsConsistent}
use anna.Kvs.Membership.{departed_message}
use anna.Route.{RoutingThread, Router}
use anna.Route.Membership.{membership_handler}
use anna.Route.Membership.Consistent.{AllConsistent}
use anna.Route.Membership.Follows.{known_after, membership_handler-follows}
use anna.Kvs.Start.Seeded.{knows}
use anna.Monitor.{Monitor, MonitorConfig}
use anna.Monitor.Departures.{depart_done_handler}
use anna.Monitor.Departures.Counted.{depart_done-unparsed}
use anna.Monitor.Replication.{Peers, create_new_replication_vector, change_replication_factor}
use anna.Monitor.Replication.Atomic.{factor, chosen, stored, change_replication_factor-whole}
use anna.Monitor.Replication.{Changing}
use anna.Monitor.Replication.Failed.{fails}
use anna.Monitor.Movement.{none_chosen, choose_keys, is_hot, promoted}
use anna.Monitor.Movement.Fits.{total, choose_keys-fits}
use anna.Tests.Setup.{lib, config, quiet_net, state_after, is_ok, ends}

abbrev routing_thread : RoutingThread
routing_thread = record { ip = codes "10.0.0.5"; tid = 0 }

abbrev router : Router
router = record {
  global_hash_rings = [];
  local_hash_rings = [];
  key_replication_map = [];
  pending_requests = [];
  net = quiet_net;
}

empty-IsConsistent : IsConsistent lib.std_hash HashRing.empty
empty-IsConsistent = record { sorted = tt; placed = tt; servers = tt }

abbrev depart : Text
depart = codes "depart:MEMORY:10.0.0.2:10.0.0.2"

membership_ends : is_ok (membership_handler lib 1 routing_thread depart router) ≡ true
unfolding membership_handler anna.Route.Membership.take_parts split anna.Kvs.Membership.announced
    anna.Metadata.Names.tier_parse anna.Route.Membership.by_type
membership_ends = refl

membership_handler-follows_example :
    (let r' = state_after router (membership_handler lib 1 routing_thread depart router) in
      AllConsistent lib r'.global_hash_rings
      × ((t : Tier) (i : Text)
          → knows t i r'.global_hash_rings
            ≡ known_after
                (codes "depart")
                (record {
                  tier = memory;
                  public_ip = codes "10.0.0.2";
                  private_ip = codes "10.0.0.2";
                })
                t
                i
                []))
unfolding HashMap.find split anna.Kvs.Membership.announced anna.Metadata.Names.tier_parse
membership_handler-follows_example =
    membership_handler-follows lib 1 routing_thread depart (codes "depart")
      (codes "MEMORY" ∷ codes "10.0.0.2" ∷ codes "10.0.0.2" ∷ [])
      (record { tier = memory; public_ip = codes "10.0.0.2"; private_ip = codes "10.0.0.2" }) router
      (state_after router (membership_handler lib 1 routing_thread depart router))
      (λ tier. empty-IsConsistent) refl refl
      (ends router (membership_handler lib 1 routing_thread depart router) membership_ends)

abbrev monitor_config : MonitorConfig
monitor_config = record {
  lib = lib;
  ip = codes "10.0.0.6";
  management_ip = codes "10.0.0.9";
  memory_thread_count = 2;
  ebs_thread_count = 1;
  minimum_replica_number = 1;
  enable_elasticity = true;
  enable_tiering = true;
  enable_selective_rep = true;
}

-- A monitor that waits for two threads of one node, and knows one key. Its doubles are numbers.
abbrev monitor : Monitor ℕ
monitor = record {
  global_hash_rings = [];
  key_replication_map = [];
  routing_ips = codes "10.0.0.5" ∷ [];
  memory_storage = [];
  ebs_storage = [];
  memory_occupancy = [];
  ebs_occupancy = [];
  key_access_frequency = [];
  key_access_summary = (codes "k", 1) ∷ [];
  key_size = (codes "k", 5) ∷ [];
  user_latency = [];
  user_throughput = [];
  latency_miss_ratio_map = [];
  new_memory_count = 0;
  new_ebs_count = 0;
  departing_node_map = (codes "10.0.0.2", 2) ∷ [];
  removing_memory_node = true;
  removing_ebs_node = false;
  grace_start = 0;
  net = quiet_net;
}

abbrev done : Text
done = codes "10.0.0.2_10.0.0.2_1"

depart_done-unparsed_example :
    depart_done_handler monitor_config (departed_message config) monitor ≡ fault unparsed
depart_done-unparsed_example =
    depart_done-unparsed monitor_config config monitor
      (refl, (refl, (refl, (refl, (refl, (refl, (refl, (refl, tt))))))))
      (refl, (refl, (refl, (refl, (refl, (refl, (refl, (refl, tt))))))))

abbrev peers : Peers
peers = record {
  answer = λ address r. none;
  print_factor = λ f. f.key;
  print_updates = λ fs. [];
  print_lww = λ n t. t;
}

abbrev wanted : KeyReplication
wanted = create_new_replication_vector 1 0 1 1

change_ends :
    is_ok (change_replication_factor monitor_config peers [] ((codes "k", wanted) ∷ []) 0 monitor)
    ≡ true
unfolding change_replication_factor anna.Monitor.Replication.store_factors
    anna.Monitor.Replication.store_factor anna.Monitor.Replication.values_in
    create_new_replication_vector HashMap.find
    anna.Ring.MetadataRequest.prepare_metadata_put_request
    anna.Ring.MetadataRequest.prepare_metadata_request
    anna.Ring.Responsible.get_responsible_threads_metadata anna.Ring.Responsible.responsible_global
    anna.Ring.ConsistentHashMap.find anna.Ring.MetadataRequest.prepare_for
    anna.Monitor.Replication.tell_changes anna.Containers.HashSet.contains
    anna.Monitor.Replication.make_requests anna.Monitor.Replication.told_threads
change_ends = refl

change_replication_factor-whole_example :
    (let p =
        state_after
          (monitor, 0)
          (change_replication_factor monitor_config peers []
            ((codes "k", wanted) ∷ [])
            0
            monitor) in
      (c : Changing) × (stored monitor_config peers [] ((codes "k", wanted) ∷ []) 0 monitor ≡ ok c)
      × (factor (codes "k") p.0.key_replication_map ≡ (
          if fails peers (codes "k") c.requests.addr_request_map
          then factor (codes "k") monitor.key_replication_map
          else chosen wanted (factor (codes "k") monitor.key_replication_map))))
unfolding HashMap.find
change_replication_factor-whole_example =
    change_replication_factor-whole monitor_config peers [] ((codes "k", wanted) ∷ []) 0
      (state_after (monitor, 0)
        (change_replication_factor monitor_config peers [] ((codes "k", wanted) ∷ []) 0 monitor)).1
      monitor
      (state_after (monitor, 0)
        (change_replication_factor monitor_config peers [] ((codes "k", wanted) ∷ []) 0 monitor)).0
      (codes "k") wanted (refl, tt) refl
      (ends (monitor, 0)
        (change_replication_factor monitor_config peers [] ((codes "k", wanted) ∷ []) 0 monitor)
        change_ends)

choose_ends :
    is_ok (choose_keys monitor 10 is_hot promoted monitor.key_access_summary none_chosen) ≡ true
unfolding choose_keys anna.Metadata.is_metadata split
choose_ends = refl

choose_keys-fits_example :
    total monitor.key_size
      (state_after none_chosen
        (choose_keys monitor 10 is_hot promoted monitor.key_access_summary none_chosen)).requests
    ≤ 10
unfolding HashMap.find
choose_keys-fits_example =
    choose_keys-fits monitor 10 is_hot promoted monitor.key_access_summary
      (state_after none_chosen
        (choose_keys monitor 10 is_hot promoted monitor.key_access_summary none_chosen))
      (omega arith)
      (ends none_chosen
        (choose_keys monitor 10 is_hot promoted monitor.key_access_summary none_chosen) choose_ends)
