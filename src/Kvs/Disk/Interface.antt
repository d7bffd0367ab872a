-- ===== src/Kvs/Disk/Interface.antt =====
-- The six disk serializers by type: a put touches the file of its key only. They do not fill the
-- interface of the handlers, as two keys can name one file.
use anna.Prelude.{ℕ, ◌≡◌, ◌≢◌, refl, ap, arith, Bool, [], list_eq, nat_eq, ==_iff}
use anna.Containers.HashMap
use anna.Text.{Text}
use anna.Messages.{LatticeType, AnnaError, no_error}
use anna.Kvs.Memory.{Protobuf}
use anna.Kvs.Disk.{
  Disk, MergingClass, Files, file_of, read_file, disk_get, disk_put, disk_lww, disk_set,
  disk_ordered_set, disk_single, disk_multi, disk_priority, put_priority, priority_content,
}
use anna.Kvs.Disk.Laws.{find-put_over}

-- `parses` tells, for each type of message, which texts protobuf can parse.
module _ (pb : Protobuf) (parses : LatticeType → Text → Bool) (d : Disk) where
  -- `serializers[type]->get(key, error)`; NONE has no serializer, and no handler comes here with it
  unfoldable pub get_file : LatticeType → Text → Files → Text × AnnaError
  get_file LatticeType.none key files = ([], no_error)
  get_file LatticeType.lww key files =
      disk_get (disk_lww pb (parses LatticeType.lww)).reader d key files
  get_file LatticeType.set key files =
      disk_get (disk_set pb (parses LatticeType.set)).reader d key files
  get_file LatticeType.ordered_set key files =
      disk_get (disk_ordered_set pb (parses LatticeType.set)).reader d key files
  get_file LatticeType.single_causal key files =
      disk_get (disk_single pb (parses LatticeType.single_causal)).reader d key files
  get_file LatticeType.multi_causal key files =
      disk_get (disk_multi pb (parses LatticeType.multi_causal)).reader d key files
  get_file LatticeType.priority key files =
      disk_get (disk_priority pb (parses LatticeType.priority)) d key files

  unfoldable pub put_file : LatticeType → Text → Text → Files → ℕ × Files
  put_file LatticeType.none key payload files = (0, files)
  put_file LatticeType.lww key payload files =
      disk_put (disk_lww pb (parses LatticeType.lww)) d key payload files
  put_file LatticeType.set key payload files =
      disk_put (disk_set pb (parses LatticeType.set)) d key payload files
  put_file LatticeType.ordered_set key payload files =
      disk_put (disk_ordered_set pb (parses LatticeType.set)) d key payload files
  put_file LatticeType.single_causal key payload files =
      disk_put (disk_single pb (parses LatticeType.single_causal)) d key payload files
  put_file LatticeType.multi_causal key payload files =
      disk_put (disk_multi pb (parses LatticeType.multi_causal)) d key payload files
  put_file LatticeType.priority key payload files =
      put_priority pb (parses LatticeType.priority) d key payload files

  find-disk_put :
      {M : Type 0} (c : MergingClass M) (j k payload : Text) (files : Files)
      → file_of d j ≢ file_of d k
      → HashMap.find (file_of d j) (disk_put c d k payload files).1
        ≡ HashMap.find (file_of d j) files
  unfolding disk_put
  find-disk_put c j k payload files n =
      find-put_over c d (file_of d k) (file_of d j) (c.reader.read payload)
        (HashMap.find (file_of d k) files) files n

  find-put_priority :
      (ok : Text → Bool) (j k payload : Text) (files : Files)
      → file_of d j ≢ file_of d k
      → HashMap.find (file_of d j) (put_priority pb ok d k payload files).1
        ≡ HashMap.find (file_of d j) files
  unfolding put_priority
  find-put_priority ok j k payload files n = ground (
    arith,
    HashMap.find-assign (file_of d k) (file_of d j)
        (priority_content pb ok (pb.parse_priority payload) (HashMap.at [] (file_of d k) files))
        files,
    ==_iff (file_of d k) (file_of d j),
    n,
  )

  -- A put under one key leaves the file of every other.
  find-put_file :
      (u : LatticeType) (j k payload : Text) (files : Files)
      → file_of d j ≢ file_of d k
      → HashMap.find (file_of d j) (put_file u k payload files).1 ≡ HashMap.find (file_of d j) files
  unfolding put_file
  find-put_file LatticeType.none j k payload files n = refl
  find-put_file LatticeType.lww j k payload files n =
      find-disk_put (disk_lww pb (parses LatticeType.lww)) j k payload files n
  find-put_file LatticeType.set j k payload files n =
      find-disk_put (disk_set pb (parses LatticeType.set)) j k payload files n
  find-put_file LatticeType.ordered_set j k payload files n =
      find-disk_put (disk_ordered_set pb (parses LatticeType.set)) j k payload files n
  find-put_file LatticeType.single_causal j k payload files n =
      find-disk_put (disk_single pb (parses LatticeType.single_causal)) j k payload files n
  find-put_file LatticeType.multi_causal j k payload files n =
      find-disk_put (disk_multi pb (parses LatticeType.multi_causal)) j k payload files n
  find-put_file LatticeType.priority j k payload files n =
      find-put_priority (parses LatticeType.priority) j k payload files n

  -- A get depends on the file of its key only.
  get_file-find :
      (t : LatticeType) (j : Text) (files files' : Files)
      → HashMap.find (file_of d j) files ≡ HashMap.find (file_of d j) files'
      → get_file t j files ≡ get_file t j files'
  unfolding get_file disk_get
  get_file-find LatticeType.none j files files' h = refl
  get_file-find LatticeType.lww j files files' h =
      ap (read_file (disk_lww pb (parses LatticeType.lww)).reader d) h
  get_file-find LatticeType.set j files files' h =
      ap (read_file (disk_set pb (parses LatticeType.set)).reader d) h
  get_file-find LatticeType.ordered_set j files files' h =
      ap (read_file (disk_ordered_set pb (parses LatticeType.set)).reader d) h
  get_file-find LatticeType.single_causal j files files' h =
      ap (read_file (disk_single pb (parses LatticeType.single_causal)).reader d) h
  get_file-find LatticeType.multi_causal j files files' h =
      ap (read_file (disk_multi pb (parses LatticeType.multi_causal)).reader d) h
  get_file-find LatticeType.priority j files files' h =
      ap (read_file (disk_priority pb (parses LatticeType.priority)) d) h

  -- A put under one key does not change what a get of another returns, of whatever types the two are,
  -- if the system opens different files for the two.
  pub get_file-put_file_ne :
      (t u : LatticeType) (j k payload : Text) (files : Files)
      → file_of d j ≢ file_of d k
      → get_file t j (put_file u k payload files).1 ≡ get_file t j files
  get_file-put_file_ne t u j k payload files n =
      get_file-find t j (put_file u k payload files).1 files (find-put_file u j k payload files n)
