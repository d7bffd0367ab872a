-- ===== src/Messages.antt =====
-- The messages of common/proto/anna.proto and include/proto/metadata.proto, as the generated classes
-- hold them, and the sockets to which the program writes. The bytes of a message on the wire are
-- protobuf's: a message that is sent is kept here as the value that is serialized.
pub mod Carried
use anna.Prelude.{ℕ, Bool, false, ◌==◌, nat_eq, List, [], ◌∷◌, ◌++◌}
use anna.Text.{Text}

pub data RequestType : Type 0 where
  unspecified get put : RequestType

pub data LatticeType : Type 0 where
  none lww set single_causal multi_causal ordered_set priority : LatticeType

pub data AnnaError : Type 0 where
  no_error key_dne wrong_thread timeout lattice no_servers : AnnaError

-- The number of an enumerator in anna.proto.
abbrev pub type_number : LatticeType → ℕ
type_number none = 0
type_number lww = 1
type_number set = 2
type_number single_causal = 3
type_number multi_causal = 4
type_number ordered_set = 5
type_number priority = 6

abbrev pub type_beq : LatticeType → LatticeType → Bool
type_beq a b = type_number a == type_number b

pub record KeyTuple : Type 0 where
  pub key : Text
  pub lattice_type : LatticeType
  pub error : AnnaError
  pub payload : Text
  pub address_cache_size : ℕ
  pub invalidate : Bool

-- A new tuple, with the defaults of proto3.
abbrev pub empty_tuple : Text → KeyTuple
empty_tuple key = record {
  key = key;
  lattice_type = LatticeType.none;
  error = no_error;
  payload = [];
  address_cache_size = 0;
  invalidate = false;
}

pub record KeyRequest : Type 0 where
  pub type : RequestType
  pub tuples : List KeyTuple
  pub response_address : Text
  pub request_id : Text

pub record KeyResponse : Type 0 where
  pub type : RequestType
  pub tuples : List KeyTuple
  pub response_id : Text
  pub error : AnnaError

pub record KeyAddress : Type 0 where
  pub key : Text
  pub ips : List Text

pub record KeyAddressRequest : Type 0 where
  pub response_address : Text
  pub keys : List Text
  pub request_id : Text

pub record KeyAddressResponse : Type 0 where
  pub addresses : List KeyAddress
  pub error : AnnaError
  pub response_id : Text

pub data Message : Type 0 where
  request : KeyRequest → Message
  response : KeyResponse → Message
  address_response : KeyAddressResponse → Message
  text : Text → Message

-- What the program wrote to its sockets, the last message at the end, the seed of `rand_r`, the hidden
-- state of `rand`, and how often the clock was read.
pub record Net : Type 0 where
  pub seed : ℕ
  pub rand_state : ℕ
  pub ticks : ℕ
  pub sent : List (Text × Message)

-- `kZmqUtil->send_string(message, &pushers[address])`
abbrev pub send : Text → Message → Net → Net
send address message net = record net { sent = net.sent ++ (address, message) ∷ [] }

-- `prepare_get_tuple` of include/kvs_common.hpp
unfoldable pub prepare_get_tuple : KeyRequest → Text → LatticeType → KeyRequest
prepare_get_tuple req key type = record req {
  tuples = req.tuples ++ record (empty_tuple key) { lattice_type = type } ∷ [];
}

-- `prepare_put_tuple` of include/kvs_common.hpp
unfoldable pub prepare_put_tuple : KeyRequest → Text → LatticeType → Text → KeyRequest
prepare_put_tuple req key type payload = record req {
  tuples = req.tuples ++ record (empty_tuple key) { lattice_type = type; payload = payload } ∷ [];
}

-- A message that was created and not yet filled.
abbrev pub empty_request : KeyRequest
empty_request = record { type = unspecified; tuples = []; response_address = []; request_id = [] }
