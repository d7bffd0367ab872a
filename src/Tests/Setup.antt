-- ===== src/Tests/Setup.antt =====
-- The server, the routing thread and the messages of the examples.
use anna.Prelude.{pos, ℕ, ◌+◌, ◌≡◌, refl, list_eq, nat_eq, Bool, true, false, List, [], ◌∷◌, length}
use anna.Text.{Text, codes}
use anna.Messages.{LatticeType, RequestType, KeyTuple, KeyRequest, Net, empty_tuple}
use anna.Metadata.{memory, tier_eq, get_metadata_key}
use anna.Run.{Run, ok, fault}
use anna.Threads.{server_thread}
use anna.Ring.HashRing.{HashRing, virtual_thread}
use anna.Ring.Responsible.{Library}
use anna.Kvs.{Serializers, Config, Server}
use anna.Kvs.Memory.{Protobuf, Stores}
use anna.Kvs.Memory.Laws.{memory_serializers}
use anna.Tests.Lattices.{by_order}

abbrev pub first_of : List Text → Text
first_of [] = []
first_of (t ∷ ts) = t

-- A wire format in which a payload is its text, with no clock and one value.
abbrev pub plain : Protobuf
plain = record {
  P = ℕ;
  compare = by_order;
  int_max = 0x7FFF_FFFF;
  parse_lww = λ t. (length t, t);
  print_lww = λ n t. t;
  parse_set = λ t. t ∷ [];
  print_set = first_of;
  parse_single = λ t. record { vector_clock = []; values = t ∷ [] };
  print_single = λ v. first_of v.values;
  parse_multi = λ t. record { vector_clock = []; dependencies = []; values = t ∷ [] };
  print_multi = λ v. first_of v.values;
  parse_priority = λ t. (length t, t);
  print_priority = λ n t. t;
}

abbrev pub store : Serializers
store = memory_serializers plain

abbrev pub ip : Text
ip = codes "10.0.0.1"

abbrev pub lib : Library
lib = record {
  std_hash = length;
  rand_r = λ n. (n, n + 1);
  rand = λ n. (n, n + 1);
  default_local_replication = 1;
  clock = λ n. n;
}

abbrev pub config : Config
config = record {
  lib = lib;
  wt = server_thread ip ip 0;
  self_tier = memory;
  thread_num = 1;
  default_replication = λ t. 1;
  self_join_count = pos 0;
  routing_ips = codes "10.0.0.5" ∷ [];
  monitoring_ips = codes "10.0.0.6" ∷ [];
  management_ip = codes "NULL";
}

-- A ring of one virtual node of this thread.
abbrev pub one_node : HashRing
one_node = record {
  nodes = (4, virtual_thread ip ip 0 0) ∷ [];
  unique_servers = [];
  server_join_count = [];
}

abbrev pub quiet_net : Net
quiet_net = record { seed = 0; rand_state = 0; ticks = 0; sent = [] }

abbrev pub empty_stores : Stores plain
empty_stores = record {
  lww = [];
  set = [];
  ordered_set = [];
  single = [];
  multi = [];
  priority = [];
}

abbrev pub server : Server store.Store
server = record {
  global_hash_rings = (memory, one_node) ∷ [];
  local_hash_rings = (memory, one_node) ∷ [];
  pending_requests = [];
  pending_gossip = [];
  key_access_tracker = [];
  stored_key_map = [];
  key_replication_map = [];
  local_changeset = [];
  access_count = 0;
  join_gossip_map = [];
  join_remove_set = [];
  extant_caches = [];
  cache_ip_to_keys = [];
  key_to_cache_ips = [];
  rid = 0;
  store = empty_stores;
  net = quiet_net;
}

abbrev pub metadata_tuple : KeyTuple
metadata_tuple = record (empty_tuple (get_metadata_key (codes "k"))) {
  lattice_type = LatticeType.lww;
  payload = codes "v";
}

abbrev pub put_request : KeyRequest
put_request = record {
  type = RequestType.put;
  tuples = metadata_tuple ∷ [];
  response_address = codes "tcp://10.0.0.9:6800";
  request_id = codes "7";
}

-- The state after a run that ended.
abbrev pub state_after {ℓ} : {A : Type ℓ} → A → Run A → A
state_after s (ok a) = a
state_after s (fault e) = s

abbrev pub is_ok {ℓ} : {A : Type ℓ} → Run A → Bool
is_ok (ok a) = true
is_ok (fault e) = false

pub ends {ℓ} : {A : Type ℓ} (s : A) (m : Run A) → is_ok m ≡ true → m ≡ ok (state_after s m)
ends s (ok a) h = refl
ends s (fault e) h = cc
