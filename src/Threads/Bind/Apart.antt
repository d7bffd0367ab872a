-- ===== src/Threads/Bind/Apart.antt =====
-- The sockets of one server listen on different addresses.
use anna.Prelude.{ℕ, ◌≡◌, refl, sym, ap, ◌∙◌, arith, ◌+◌, ◌*◌, ◌%◌, ◌<◌, nat_beq, if◌then◌else◌}
use anna.Text.Decimal.{to_string-injective}
use anna.Threads.{ServerThread}
use anna.Threads.Bind.{Socket, bind, bind_address}

-- The ports of a socket are the fifty from a multiple of fifty.
slot : Socket → ℕ
slot Socket.join_puller = 120
slot Socket.depart_puller = 121
slot Socket.self_depart_puller = 122
slot Socket.replication_response_puller = 123
slot Socket.request_puller = 124
slot Socket.gossip_puller = 125
slot Socket.replication_change_puller = 126
slot Socket.cache_ip_response_puller = 141
slot Socket.management_node_response_puller = 142

socket_at : ℕ → Socket
socket_at n =
    if nat_beq n 120
    then Socket.join_puller
    else if nat_beq n 121
    then Socket.depart_puller
    else if nat_beq n 122
    then Socket.self_depart_puller
    else if nat_beq n 123
    then Socket.replication_response_puller
    else if nat_beq n 124
    then Socket.request_puller
    else if nat_beq n 125
    then Socket.gossip_puller
    else if nat_beq n 126
    then Socket.replication_change_puller
    else if nat_beq n 141
    then Socket.cache_ip_response_puller
    else Socket.management_node_response_puller

socket_at-slot : (s : Socket) → socket_at (slot s) ≡ s
unfolding socket_at slot
socket_at-slot Socket.join_puller = refl
socket_at-slot Socket.depart_puller = refl
socket_at-slot Socket.self_depart_puller = refl
socket_at-slot Socket.replication_response_puller = refl
socket_at-slot Socket.request_puller = refl
socket_at-slot Socket.gossip_puller = refl
socket_at-slot Socket.replication_change_puller = refl
socket_at-slot Socket.cache_ip_response_puller = refl
socket_at-slot Socket.management_node_response_puller = refl

slot-bound : (s : Socket) → slot s < 143
unfolding slot
slot-bound Socket.join_puller = omega arith
slot-bound Socket.depart_puller = omega arith
slot-bound Socket.self_depart_puller = omega arith
slot-bound Socket.replication_response_puller = omega arith
slot-bound Socket.request_puller = omega arith
slot-bound Socket.gossip_puller = omega arith
slot-bound Socket.replication_change_puller = omega arith
slot-bound Socket.cache_ip_response_puller = omega arith
slot-bound Socket.management_node_response_puller = omega arith

bind_address-slot : (s : Socket) (st : ServerThread) → bind_address s st ≡ bind st.tid (50 * slot s)
unfolding bind_address slot
bind_address-slot Socket.join_puller st = refl
bind_address-slot Socket.depart_puller st = refl
bind_address-slot Socket.self_depart_puller st = refl
bind_address-slot Socket.replication_response_puller st = refl
bind_address-slot Socket.request_puller st = refl
bind_address-slot Socket.gossip_puller st = refl
bind_address-slot Socket.replication_change_puller st = refl
bind_address-slot Socket.cache_ip_response_puller st = refl
bind_address-slot Socket.management_node_response_puller st = refl

port_injective :
    (a b i j : ℕ)
    → a < 143
    → b < 143
    → i < 50
    → j < 50
    → (i + 50 * a) % 0x1_0000_0000 ≡ (j + 50 * b) % 0x1_0000_0000
    → (a ≡ b) × (i ≡ j)
port_injective a b i j ha hb hi hj e = (omega arith, omega arith)

bind_injective :
    (a b i j : ℕ) → bind i a ≡ bind j b → (i + a) % 0x1_0000_0000 ≡ (j + b) % 0x1_0000_0000
bind_injective a b i j e =
    to_string-injective ((i + a) % 0x1_0000_0000) ((j + b) % 0x1_0000_0000) (cc)

-- Of the first fifty threads of a server, two sockets that are bound to one address are the same
-- socket of threads with one number.
pub bind_address-apart :
    (s r : Socket) (st rt : ServerThread)
    → st.tid < 50
    → rt.tid < 50
    → bind_address s st ≡ bind_address r rt
    → (s ≡ r) × (st.tid ≡ rt.tid)
bind_address-apart s r st rt h k e =
    let same = port_injective (slot s) (slot r) st.tid rt.tid (slot-bound s) (slot-bound r) h k (
      bind_injective (50 * slot s) (50 * slot r) st.tid rt.tid
        (sym (bind_address-slot s st) ∙ e ∙ bind_address-slot r rt)) in
    (sym (socket_at-slot s) ∙ ap socket_at same.0 ∙ socket_at-slot r, same.1)
