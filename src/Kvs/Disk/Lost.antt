-- ===== src/Kvs/Disk/Lost.antt =====
-- The first put of a key into the disk serializer of priorities.
use anna.Prelude.{◌≡◌, refl, list_eq, nat_eq, Bool, true, false, none, []}
use anna.Containers.HashMap
use anna.Text.{Text}
use anna.Messages.{AnnaError}
use anna.Kvs.Memory.{Protobuf}
use anna.Kvs.Disk.{
  Disk, Files, file_of, disk_get, disk_priority, put_priority, priority_content, read_file,
}

module _ (pb : Protobuf) (parses : Text → Bool) (d : Disk) where
  -- If the empty content parses, with an empty value, then a put of a priority that is not less than
  -- the one it parses with, under a key without a file, leaves an empty file, and the get after it
  -- returns KEY_DNE.
  pub put_priority-lost :
      (key serialized : Text) (files : Files)
      → parses [] ≡ true
      → (pb.parse_priority []).1 ≡ []
      → pb.compare.less (pb.parse_priority serialized).0 (pb.parse_priority []).0 ≡ false
      → HashMap.find (file_of d key) files ≡ none
      → d.can_write (file_of d key) ≡ true
      → (disk_get (disk_priority pb parses) d key (put_priority pb parses d key serialized files).1)
        ≡ ([], AnnaError.key_dne)
  unfolding disk_get put_priority priority_content read_file
  put_priority-lost key serialized files p v l n w =
      rw (w, n, p, l, HashMap.find-assign_self (file_of d key) [] files) rw (p, v) refl
