-- ===== src/Threads.antt =====
-- The addresses of the program's threads: ServerThread of include/kvs_threads.hpp, RoutingThread,
-- MonitoringThread, and CacheThread of common/include/threads.hpp. `private_base_` and
-- `public_base_` are what the constructors always make of the addresses.
pub mod Identity
pub mod Bind
use anna.Prelude.{ℕ, ◌+◌, ◌%◌, ◌==◌, list_eq, nat_eq, Bool, List, [], ◌∷◌, ◌++◌}
use anna.Text.{Text, codes, to_string}

abbrev pub node_join_port : ℕ
node_join_port = 6000

abbrev pub node_depart_port : ℕ
node_depart_port = 6050

abbrev pub self_depart_port : ℕ
self_depart_port = 6100

abbrev pub server_replication_response_port : ℕ
server_replication_response_port = 6150

abbrev pub key_request_port : ℕ
key_request_port = 6200

abbrev pub gossip_port : ℕ
gossip_port = 6250

abbrev pub server_replication_change_port : ℕ
server_replication_change_port = 6300

abbrev pub cache_ip_response_port : ℕ
cache_ip_response_port = 7050

abbrev pub routing_notify_port : ℕ
routing_notify_port = 6400

abbrev pub monitoring_notify_port : ℕ
monitoring_notify_port = 6600

abbrev pub cache_update_port : ℕ
cache_update_port = 7150

abbrev pub monitoring_response_port : ℕ
monitoring_response_port = 6650

abbrev pub depart_done_port : ℕ
depart_done_port = 6700

-- Nothing reads the `virtual_num_` that the constructor of three arguments leaves unset: it is 0
-- there.
pub record ServerThread : Type 0 where
  pub public_ip : Text
  pub private_ip : Text
  pub tid : ℕ
  pub virtual_num : ℕ

abbrev pub server_thread : Text → Text → ℕ → ServerThread
server_thread public_ip private_ip tid = record {
  public_ip = public_ip;
  private_ip = private_ip;
  tid = tid;
  virtual_num = 0;
}

abbrev pub colon : Text
colon = codes ":"

-- "tcp://" + ip + ":"
abbrev pub base : Text → Text
base ip = codes "tcp://" ++ (ip ++ colon)

-- `std::to_string(tid_ + port)`, in 32 bits
abbrev pub connect : Text → ℕ → ℕ → Text
connect ip tid port = base ip ++ to_string ((tid + port) % 0x1_0000_0000)

unfoldable pub id : ServerThread → Text
id st = st.private_ip ++ (colon ++ to_string st.tid)

unfoldable pub virtual_id : ServerThread → Text
virtual_id st =
    st.private_ip ++ (colon ++ (to_string st.tid ++ (codes "_" ++ to_string st.virtual_num)))

-- `operator==`: `l.id().compare(r.id()) == 0`
unfoldable pub same_thread : ServerThread → ServerThread → Bool
same_thread l r = id l == id r

abbrev pub node_join_connect_address : ServerThread → Text
node_join_connect_address st = connect st.private_ip st.tid node_join_port

abbrev pub node_depart_connect_address : ServerThread → Text
node_depart_connect_address st = connect st.private_ip st.tid node_depart_port

abbrev pub self_depart_connect_address : ServerThread → Text
self_depart_connect_address st = connect st.private_ip st.tid self_depart_port

abbrev pub key_request_connect_address : ServerThread → Text
key_request_connect_address st = connect st.public_ip st.tid key_request_port

abbrev pub replication_response_connect_address : ServerThread → Text
replication_response_connect_address st =
    connect st.private_ip st.tid server_replication_response_port

abbrev pub cache_ip_response_connect_address : ServerThread → Text
cache_ip_response_connect_address st = connect st.private_ip st.tid cache_ip_response_port

abbrev pub gossip_connect_address : ServerThread → Text
gossip_connect_address st = connect st.private_ip st.tid gossip_port

abbrev pub replication_change_connect_address : ServerThread → Text
replication_change_connect_address st = connect st.private_ip st.tid server_replication_change_port

-- RoutingThread and MonitoringThread: the address on which they hear of joins and departures
abbrev pub routing_notify_connect_address : Text → ℕ → Text
routing_notify_connect_address ip tid = connect ip tid routing_notify_port

abbrev pub monitoring_notify_connect_address : Text → Text
monitoring_notify_connect_address ip = base ip ++ to_string monitoring_notify_port

-- MonitoringThread: where it waits for responses, and for the end of departures
abbrev pub monitoring_response_connect_address : Text → Text
monitoring_response_connect_address ip = base ip ++ to_string monitoring_response_port

abbrev pub depart_done_connect_address : Text → Text
depart_done_connect_address ip = base ip ++ to_string depart_done_port

-- CacheThread(ip, tid).cache_update_connect_address()
abbrev pub cache_update_connect_address : Text → ℕ → Text
cache_update_connect_address ip tid = connect ip tid cache_update_port
