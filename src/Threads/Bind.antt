-- ===== src/Threads/Bind.antt =====
-- The addresses on which the threads of a server listen: the *_bind_address of ServerThread in
-- include/kvs_threads.hpp.
pub mod Apart
use anna.Prelude.{ℕ, ◌+◌, ◌%◌, List, [], ◌∷◌, ◌++◌}
use anna.Text.{Text, codes, to_string}
use anna.Threads.{
  ServerThread, node_join_port, node_depart_port, self_depart_port,
  server_replication_response_port, key_request_port, gossip_port, server_replication_change_port,
  cache_ip_response_port,
}

abbrev pub management_node_response_port : ℕ
management_node_response_port = 7100

abbrev pub bind_base : Text
bind_base = codes "tcp://*:"

-- `kBindBase + std::to_string(tid_ + port)`, in 32 bits
abbrev pub bind : ℕ → ℕ → Text
bind tid port = bind_base ++ to_string ((tid + port) % 0x1_0000_0000)

abbrev pub node_join_bind_address : ServerThread → Text
node_join_bind_address st = bind st.tid node_join_port

abbrev pub node_depart_bind_address : ServerThread → Text
node_depart_bind_address st = bind st.tid node_depart_port

abbrev pub self_depart_bind_address : ServerThread → Text
self_depart_bind_address st = bind st.tid self_depart_port

abbrev pub key_request_bind_address : ServerThread → Text
key_request_bind_address st = bind st.tid key_request_port

abbrev pub replication_response_bind_address : ServerThread → Text
replication_response_bind_address st = bind st.tid server_replication_response_port

abbrev pub cache_ip_response_bind_address : ServerThread → Text
cache_ip_response_bind_address st = bind st.tid cache_ip_response_port

abbrev pub management_node_response_bind_address : ServerThread → Text
management_node_response_bind_address st = bind st.tid management_node_response_port

abbrev pub gossip_bind_address : ServerThread → Text
gossip_bind_address st = bind st.tid gossip_port

abbrev pub replication_change_bind_address : ServerThread → Text
replication_change_bind_address st = bind st.tid server_replication_change_port

-- The sockets that `run` in src/kvs/server.cpp binds, and the address of each.
pub data Socket : Type 0 where
  join_puller depart_puller self_depart_puller request_puller gossip_puller
        replication_response_puller replication_change_puller cache_ip_response_puller
        management_node_response_puller :
      Socket

unfoldable pub bind_address : Socket → ServerThread → Text
bind_address join_puller st = node_join_bind_address st
bind_address depart_puller st = node_depart_bind_address st
bind_address self_depart_puller st = self_depart_bind_address st
bind_address request_puller st = key_request_bind_address st
bind_address gossip_puller st = gossip_bind_address st
bind_address replication_response_puller st = replication_response_bind_address st
bind_address replication_change_puller st = replication_change_bind_address st
bind_address cache_ip_response_puller st = cache_ip_response_bind_address st
bind_address management_node_response_puller st = management_node_response_bind_address st
