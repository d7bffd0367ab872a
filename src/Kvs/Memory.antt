-- ===== src/Kvs/Memory.antt =====
-- The serializers of a memory node (Memory*Serializer in include/kvs/server_utils.hpp) and the
-- values that they store (serialize and deserialize_* in common/include/common.hpp).
pub mod Laws
use anna.Prelude.{
  ℕ, ◌+◌, ◌*◌, ◌%◌, ◌==◌, Eq, list_eq, nat_eq, Bool, true, false, Option, none, some, List, [], ◌∷◌,
  length, if◌then◌else◌, nat_beq,
}
use anna.Containers.HashMap
use anna.Containers.HashMap.{HashMap}
use anna.Containers.HashSet
use anna.Text.{Text}
use anna.Messages
use anna.Messages.{LatticeType, AnnaError, no_error}
use anna.Lattice.Lww.{TimestampValuePair, merge_lww}
use anna.Lattice.Set.{merge_set}
use anna.Lattice.Max.{merge_max}
use anna.Lattice.MapLattice.{insert_pair, merge_map}
use anna.Lattice.Priority.{Compare, PriorityValuePair, merge_priority}
use anna.Lattice.Causal.{
  VectorClock, VectorClockValuePair, MultiKeyCausalPayload, merge_single, merge_multi,
}
use anna.Kvs.{Serializers}
use anna.Kvs.KvStore

abbrev uint32 : ℕ → ℕ
uint32 n = n % 0x1_0000_0000

-- The messages of common/proto that carry values, and what protobuf reads and writes for them.
pub record SingleKeyCausalValue : Type 0 where
  pub vector_clock : List (Text × ℕ)
  pub values : List Text

pub record KeyVersion : Type 0 where
  pub key : Text
  pub vector_clock : List (Text × ℕ)

pub record MultiKeyCausalValue : Type 0 where
  pub vector_clock : List (Text × ℕ)
  pub dependencies : List KeyVersion
  pub values : List Text

-- `P` stands for `double`, and `int_max` for INT_MAX in it.
pub record Protobuf : Type 1 where
  pub P : Type 0
  pub compare : Compare P
  pub int_max : P
  pub parse_lww : Text → ℕ × Text
  pub print_lww : ℕ → Text → Text
  pub parse_set : Text → List Text
  pub print_set : List Text → Text
  pub parse_single : Text → SingleKeyCausalValue
  pub print_single : SingleKeyCausalValue → Text
  pub parse_multi : Text → MultiKeyCausalValue
  pub print_multi : MultiKeyCausalValue → Text
  pub parse_priority : Text → P × Text
  pub print_priority : P → Text → Text

-- `for (…) result.insert(value)`
unfoldable pub insert_all : List Text → List Text → List Text
insert_all [] s = s
insert_all (value ∷ values) s = insert_all values (HashSet.insert value s)

-- `for (…) vc.insert(pair.first, pair.second)`, on a clock that begins empty
unfoldable pub to_clock : List (Text × ℕ) → VectorClock Text → VectorClock Text
to_clock [] vc = vc
to_clock ((k, n) ∷ pairs) vc = to_clock pairs (insert_pair merge_max k n vc)

-- `for (const auto &dep : mkcv.dependencies())`
unfoldable pub to_dependencies :
    List KeyVersion → HashMap Text (VectorClock Text) → HashMap Text (VectorClock Text)
to_dependencies [] m = m
to_dependencies (dep ∷ deps) m =
    to_dependencies deps
      (insert_pair (merge_map merge_max) dep.key (to_clock dep.vector_clock []) m)

abbrev Causal : Type 0
Causal = VectorClockValuePair Text (List Text)

abbrev MultiCausal : Type 0
MultiCausal = MultiKeyCausalPayload Text (List Text)

unfoldable pub to_vector_clock_value_pair : SingleKeyCausalValue → Causal
to_vector_clock_value_pair cv = record {
  vector_clock = to_clock cv.vector_clock [];
  value = insert_all cv.values [];
}

unfoldable pub to_multi_key_causal_payload : MultiKeyCausalValue → MultiCausal
to_multi_key_causal_payload mkcv = record {
  vector_clock = to_clock mkcv.vector_clock [];
  dependencies = to_dependencies mkcv.dependencies [];
  value = insert_all mkcv.values [];
}

-- The messages that `serialize` fills. The order in which a hash table or a set is listed is the
-- order of the model's list.
unfoldable pub from_dependencies : HashMap Text (VectorClock Text) → List KeyVersion
from_dependencies [] = []
from_dependencies ((k, vc) ∷ deps) = record { key = k; vector_clock = vc } ∷ from_dependencies deps

abbrev pub from_causal : Causal → SingleKeyCausalValue
from_causal p = record { vector_clock = p.vector_clock; values = p.value }

abbrev pub from_multi_causal : MultiCausal → MultiKeyCausalValue
from_multi_causal p = record {
  vector_clock = p.vector_clock;
  dependencies = from_dependencies p.dependencies;
  values = p.value;
}

-- The `size()` of the payloads. `sizeof(unsigned)` is 4, `sizeof(unsigned long long)` and
-- `sizeof(double)` are 8.
unfoldable pub dependencies_size : HashMap Text (VectorClock Text) → ℕ
dependencies_size [] = 0
dependencies_size ((k, vc) ∷ deps) = (length k + length vc * 8) + dependencies_size deps

abbrev pub single_size : Causal → ℕ
single_size p = uint32 (length p.vector_clock * 8 + length p.value)

abbrev pub multi_size : MultiCausal → ℕ
multi_size p =
    uint32 (length p.vector_clock * 8 + dependencies_size p.dependencies + length p.value)

-- One serializer class: the class of the objects, and what it does around the store.
pub record Class (V : Type 0) : Type 0 where
  pub bot : V
  pub merge : V → V → V
  pub deserialize : Text → V
  pub serialize : V → Text
  -- the value that the class takes for an absent key
  pub is_empty : V → Bool
  pub size : V → ℕ

module _ {V : Type 0} (c : Class V) where
  -- `get` of Serializer, which starts from NO_ERROR in process_get
  unfoldable pub memory_get : Text → HashMap Text V → (Text × AnnaError) × HashMap Text V
  memory_get key db =
      let ((val, error), db') = KvStore.get c.bot c.merge key no_error db in
      ((c.serialize val, if c.is_empty val then AnnaError.key_dne else error), db')

  unfoldable pub memory_put : Text → Text → HashMap Text V → ℕ × HashMap Text V
  memory_put key serialized db =
      let db' = KvStore.put c.bot c.merge key (c.deserialize serialized) db in
      (c.size (HashMap.at c.bot key db'), db')

  unfoldable pub memory_remove : Text → HashMap Text V → HashMap Text V
  memory_remove key db = KvStore.remove c.bot c.merge key db

module _ (pb : Protobuf) where
  abbrev pub lww_class : Class (TimestampValuePair Text)
  lww_class = record {
    bot = record { timestamp = 0; value = [] };
    merge = merge_lww;
    deserialize = λ t.
        (let (timestamp, value) = pb.parse_lww t in
          record { timestamp = timestamp; value = value });
    serialize = λ p. pb.print_lww p.timestamp p.value;
    is_empty = λ p. p.value == [];
    size = λ p. uint32 (length p.value + 8);
  }

  abbrev pub set_class : Class (List Text)
  set_class = record {
    bot = [];
    merge = merge_set;
    deserialize = λ t. insert_all (pb.parse_set t) [];
    serialize = pb.print_set;
    is_empty = λ s. nat_beq (uint32 (length s)) 0;
    size = λ s. uint32 (length s);
  }

  -- MemoryOrderedSetSerializer: `get` makes no test of its own
  abbrev pub ordered_set_class : Class (List Text)
  ordered_set_class = record set_class { is_empty = λ s. false }

  abbrev pub single_class : Class Causal
  single_class = record {
    bot = record { vector_clock = []; value = [] };
    merge = merge_single merge_set;
    deserialize = λ t. to_vector_clock_value_pair (pb.parse_single t);
    serialize = λ p. pb.print_single (from_causal p);
    is_empty = λ p. nat_beq (uint32 (length p.value)) 0;
    size = single_size;
  }

  abbrev pub multi_class : Class MultiCausal
  multi_class = record {
    bot = record { vector_clock = []; dependencies = []; value = [] };
    merge = merge_multi merge_set;
    deserialize = λ t. to_multi_key_causal_payload (pb.parse_multi t);
    serialize = λ p. pb.print_multi (from_multi_causal p);
    is_empty = λ p. nat_beq (uint32 (length p.value)) 0;
    size = multi_size;
  }

  abbrev pub priority_class : Class (PriorityValuePair pb.P Text)
  priority_class = record {
    bot = record { priority = pb.int_max; value = [] };
    merge = merge_priority pb.compare;
    deserialize = λ t.
        (let (priority, value) = pb.parse_priority t in
          record { priority = priority; value = value });
    serialize = λ p. pb.print_priority p.priority p.value;
    is_empty = λ p. p.value == [];
    size = λ p. uint32 (length p.value + 8);
  }

  -- The stores of one thread: one for each type of value.
  pub record Stores : Type 0 where
    pub lww : HashMap Text (TimestampValuePair Text)
    pub set : HashMap Text (List Text)
    pub ordered_set : HashMap Text (List Text)
    pub single : HashMap Text Causal
    pub multi : HashMap Text MultiCausal
    pub priority : HashMap Text (PriorityValuePair pb.P Text)
