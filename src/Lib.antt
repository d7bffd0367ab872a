-- ===== src/Lib.antt =====
-- A model of Anna, a key-value store that replicates lattice values: its lattices, its hash ring, the
-- request handlers of its storage threads and of its routing threads, what happens when nodes join and
-- depart, and the policies of its monitor.
--
-- The parts of the program and the files that model them (paths from the root of the repository):
--
-- - Lattice: common/include/lattices. `merge_max`, `merge_set`, `merge_map`, `merge_lww`,
--   `merge_priority`, `merge_single` and `merge_multi` are the `do_merge` of the classes. The record
--   Lattice abstracts from the classes that merge by a least upper bound, and Lattice.Converge says what
--   a replica gains by it.
-- - Ring: include/consistent_hash_map.hpp, include/hash_ring.hpp, include/hashers.hpp and
--   src/hash_ring/hash_ring.cpp. ConsistentHashMap is the std::map from hash to node, HashRing adds
--   and removes the virtual nodes of a server, Walk is the loop that collects different nodes, and
--   Responsible has get_responsible_threads, with what it sends for an unknown replication factor.
-- - Threads: include/kvs_threads.hpp, with the addresses on which a server listens in Threads.Bind.
--   Metadata: include/metadata.hpp and the metadata messages.
--   Messages: the messages of common/proto and what was sent. Text: strings, numbers and `split`.
-- - Kvs: a storage thread. The record Server has the variables of `run` in src/kvs/server.cpp that the
--   handlers use. Kvs.UserRequest, Kvs.Gossip and Kvs.Replication are user_request_handler,
--   gossip_handler with send_gossip, and replication_response_handler of src/kvs; Kvs.Process
--   and Kvs.Primary the helpers of src/kvs/utils.cpp. The handlers take the record Serializers as a
--   parameter; Kvs.KvStore (include/kvs/base_kv_store.hpp) and Kvs.Memory (the memory serializers of
--   include/kvs/server_utils.hpp) fill it in Kvs.Memory.Laws. Kvs.Disk has the disk
--   serializers there.
-- - Kvs, membership: Kvs.Start is what `run` in src/kvs/server.cpp does before its loop;
--   Kvs.Membership has node_join_handler, node_depart_handler and self_depart_handler of src/kvs,
--   Kvs.ReplicationChange replication_change_handler.cpp, Kvs.Caches cache_ip_response_handler.cpp
--   and management_node_response_handler.cpp. Kvs.Round is what the loop does between messages: the
--   gossip round and the redistribution. Kvs.Redistribute and Kvs.Drop are the parts that these
--   share: the map from addresses to keys, and the removal of a key.
-- - Route: a routing thread: address_handler, replication_response_handler and
--   replication_change_handler of src/route; Route.Membership has membership_handler and
--   seed_handler, whose answer Kvs.Start reads.
-- - Monitor: the state of src/monitor/monitoring.cpp with elasticity.cpp; Monitor.Membership,
--   Monitor.Departures (depart_done_handler.cpp, which reads what self_depart_handler sent),
--   Monitor.Feedback, Monitor.Replication (replication_helpers.cpp, which writes metadata by
--   Ring.MetadataRequest), Monitor.Storage and Monitor.Movement (the policies).
-- - Messages.Carried: what the messages that were sent carry, and Kvs.Gossip.Passes what send_gossip
--   sends. Containers: std::unordered_map and std::unordered_set as lists with distinct keys.
--   Run: how a run can end. Prelude: the library's names and lemmas that all parts share. Tests: concrete runs.
--
-- A handler is a function from the state and a message to the next state, with the messages sent in
-- `net`; a run that reads past a vector, calls a null pointer, divides by zero or never ends is a
-- fault. The order in which a hash table is iterated is that of the model's list. Log lines are
-- left out. Keys and payloads are lists of bytes. The empty ring that `operator[]` makes for a tier
-- without one is read, and not entered in the map of the rings, as nothing tells the two apart; so is
-- the 0 that it makes for a tier without a replication factor in src/monitor/replication_helpers.cpp.
--
-- Bounds: 32-bit counters wrap (`% 2 ^ 32`). The only fuel is that of Ring.Walk: as many rounds as
-- there are nodes from the position and in the ring, and one more. It is enough where the ring has
-- as many different nodes as the replication factor asks for; where it has not, the loop of the
-- program does not end.
--
-- The loop of generate_timestamp has ten rounds, which `pow_above_lem` shows to be enough for an id
-- below 10 ^ 9; the program passes 0.
--
-- The files of a disk node are a map from files to contents; which file the system opens for a name is
-- a parameter. What cannot be opened for writing stays as it is. The handlers are modelled over stores
-- in which the keys do not touch each other, which a disk node keeps only for keys that name
-- different files.
--
-- Parameters: `std::hash<string>`, `rand_r`, `rand`, the clock and the default local replication (the
-- record Library), what protobuf reads and writes (the records Protobuf and Peers, and the functions
-- `parse`, `parses` and `cached_keys`), which file is opened for a name, which can be written and
-- where a stream stands after a read (the record Disk), what servers answer to the monitor (Peers), the comparison of priorities
-- (the record Compare), and the arithmetic of doubles (the record Double, and the results of it in the
-- records Usage and Demand).
--
-- Not modelled: the main loops with their sockets and configuration files, the report of statistics in
-- src/kvs/server.cpp, slo_policy and the statistics in src/monitor, the
-- constructors of the disk serializers, the benchmark, the clients, and the wrappers of ZeroMQ.
pub mod Containers
pub mod Kvs
pub mod Lattice
pub mod Messages
pub mod Metadata
pub mod Monitor
pub mod Prelude
pub mod Ring
pub mod Route
pub mod Run
pub mod Tests
pub mod Text
pub mod Threads
