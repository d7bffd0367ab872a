-- ===== src/Kvs/Disk.antt =====
-- The serializers of an EBS node (Disk*Serializer in include/kvs/server_utils.hpp): one file for
-- each key, in the directory of the thread, which all types of value share.
pub mod Laws
pub mod Lost
pub mod Interface
use anna.Prelude.{
  ℕ, ◌%◌, ◌==◌, list_eq, nat_eq, Bool, true, false, Option, none, some, List, [], ◌++◌, length,
  if◌then◌else◌, ltb, nat_beq, not,
}
use anna.Containers.HashMap
use anna.Containers.HashMap.{HashMap}
use anna.Text.{Text, codes, to_string}
use anna.Messages.{AnnaError, no_error}
use anna.Lattice.Set.{merge_set}
use anna.Lattice.Causal.{merge_single, merge_multi}
use anna.Kvs.Memory.{
  Protobuf, SingleKeyCausalValue, MultiKeyCausalValue, insert_all, to_vector_clock_value_pair,
  to_multi_key_causal_payload, from_causal, from_multi_causal,
}

abbrev pub uint32 : ℕ → ℕ
uint32 n = n % 0x1_0000_0000

-- `unsigned` of the -1 that `tellp` returns for a stream that failed
abbrev pub no_position : ℕ
no_position = 0xFFFF_FFFF

-- The contents of the files.
abbrev pub Files : Type 0
Files = HashMap Text Text

-- One object: its fields, and of the operating system: which file it opens for a name (two names can
-- be of one file, as `a/k` and `a/./k`), whether the file can be opened for writing, and what
-- `input.tellp()` returns after ParseFromIstream has read a content to its end.
pub record Disk : Type 0 where
  pub tid : ℕ
  pub ebs_root : Text
  pub opened : Text → Text
  pub can_write : Text → Bool
  pub position_after : Text → ℕ

abbrev pub directory : Disk → Text
directory d = d.ebs_root ++ codes "ebs_" ++ to_string d.tid ++ codes "/"

unfoldable pub fname : Disk → Text → Text
fname d key = directory d ++ key

-- The file of the key.
abbrev pub file_of : Disk → Text → Text
file_of d key = d.opened (fname d key)

-- One serializer class: the messages `M` of its type, and what it does with them.
pub record DiskClass (M : Type 0) : Type 0 where
  -- whether a parse succeeds, and the message that it leaves
  pub parses : Text → Bool
  pub read : Text → M
  pub print : M → Text
  -- the test of `get` for a value that counts as absent
  pub is_absent : M → Bool

-- A class with the `put` that five of the classes share.
pub record MergingClass (M : Type 0) : Type 0 where
  pub reader : DiskClass M
  -- what `put` writes over a message (the first) for a new one, if it writes
  pub merge : M → M → Option M

module _ {M : Type 0} (c : DiskClass M) (d : Disk) where
  abbrev pub answer : M → Text × AnnaError
  answer value = if c.is_absent value then ([], AnnaError.key_dne) else (c.print value, no_error)

  unfoldable pub read_file : Option Text → Text × AnnaError
  read_file none = ([], AnnaError.key_dne)
  read_file (some bytes) = if c.parses bytes then answer (c.read bytes) else ([], AnnaError.key_dne)

  -- `get`, which starts from NO_ERROR in process_get
  unfoldable pub disk_get : Text → Files → Text × AnnaError
  disk_get key files = read_file (HashMap.find (file_of d key) files)

module _ {M : Type 0} (merging : MergingClass M) (d : Disk) where
  abbrev c : DiskClass M
  c = merging.reader

  -- `output` opened with ios::trunc, SerializeToOstream and `output.tellp()`
  unfoldable pub write_out : Text → M → Files → ℕ × Files
  write_out name value files =
      if d.can_write name
      then (uint32 (length (c.print value)), HashMap.assign name (c.print value) files)
      else (no_position, files)

  unfoldable pub write_merge : Text → Text → Option M → Files → ℕ × Files
  write_merge name bytes none files = (d.position_after bytes, files)
  write_merge name bytes (some value) files = write_out name value files

  unfoldable pub put_over : Text → M → Option Text → Files → ℕ × Files
  put_over name input none files = write_out name input files
  put_over name input (some bytes) files =
      if c.parses bytes
      then write_merge name bytes (merging.merge (c.read bytes) input) files
      else (0, files)

  unfoldable pub disk_put : Text → Text → Files → ℕ × Files
  disk_put key serialized files =
      put_over (file_of d key) (c.read serialized) (HashMap.find (file_of d key) files) files

-- `std::remove`; if it fails, there is only a message
unfoldable pub disk_remove : Disk → Text → Files → Files
disk_remove d key files = HashMap.erase (file_of d key) files

-- `parses` tells, for one type of message, which texts protobuf can parse.
module _ (pb : Protobuf) (parses : Text → Bool) where
  abbrev pub disk_lww : MergingClass (ℕ × Text)
  disk_lww = record {
    reader = record {
      parses = parses;
      read = pb.parse_lww;
      print = λ v. pb.print_lww v.0 v.1;
      is_absent = λ v. v.1 == [];
    };
    merge = λ original input. (if ltb input.0 original.0 then none else some input);
  }

  abbrev pub disk_set : MergingClass (List Text)
  disk_set = record {
    reader = record {
      parses = parses;
      read = pb.parse_set;
      print = pb.print_set;
      is_absent = λ v. nat_beq (length v) 0;
    };
    merge = λ original input. some (insert_all input (insert_all original []));
  }

  -- DiskOrderedSetSerializer: `get` makes no test of the value
  abbrev pub disk_ordered_set : MergingClass (List Text)
  disk_ordered_set = record disk_set { reader = record disk_set.reader { is_absent = λ v. false } }

  abbrev pub disk_single : MergingClass SingleKeyCausalValue
  disk_single = record {
    reader = record {
      parses = parses;
      read = pb.parse_single;
      print = pb.print_single;
      is_absent = λ v. nat_beq (length v.values) 0;
    };
    merge = λ original input. some (
        from_causal (
          merge_single merge_set (to_vector_clock_value_pair original)
            (to_vector_clock_value_pair input)));
  }

  abbrev pub disk_multi : MergingClass MultiKeyCausalValue
  disk_multi = record {
    reader = record {
      parses = parses;
      read = pb.parse_multi;
      print = pb.print_multi;
      is_absent = λ v. nat_beq (length v.values) 0;
    };
    merge = λ original input. some (
        from_multi_causal (
          merge_multi merge_set (to_multi_key_causal_payload original)
            (to_multi_key_causal_payload input)));
  }

  -- DiskPrioritySerializer: its `get` is as the others', its `put` is `put_priority`
  abbrev pub disk_priority : DiskClass (pb.P × Text)
  disk_priority = record {
    parses = parses;
    read = pb.parse_priority;
    print = λ v. pb.print_priority v.0 v.1;
    is_absent = λ v. v.1 == [];
  }

  -- What the file holds after a put: the new value over a content that does not parse or has a
  -- greater priority, and else the old content.
  unfoldable pub priority_content : pb.P × Text → Text → Text
  priority_content input bytes =
      if not (parses bytes)
      then pb.print_priority input.0 input.1
      else if pb.compare.less input.0 (pb.parse_priority bytes).0
      then pb.print_priority input.0 input.1
      else bytes

  -- `open` with O_CREAT: the content is empty where there was no file
  unfoldable pub put_priority : Disk → Text → Text → Files → ℕ × Files
  put_priority d key serialized files =
      if d.can_write (file_of d key)
      then (let content =
            priority_content (pb.parse_priority serialized) (HashMap.at [] (file_of d key) files) in
          (uint32 (length content), HashMap.assign (file_of d key) content files))
      else (0, files)
