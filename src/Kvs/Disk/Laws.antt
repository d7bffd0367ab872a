-- ===== src/Kvs/Disk/Laws.antt =====
-- What the disk serializers promise: a get returns what was put, merged with what was there, and the
-- serializers of an EBS node keep the interface that the handlers use.
use anna.Prelude.{◌≡◌, ◌≢◌, refl, arith, true, Option, none, some, list_eq, nat_eq, ==_iff}
use anna.Containers.HashMap
use anna.Text.{Text}
use anna.Kvs.Disk.{
  Disk, MergingClass, Files, file_of, answer, read_file, disk_get, write_out, write_merge, put_over,
  disk_put,
}

module _ {M : Type 0} (merging : MergingClass M) where
  -- What a file holds, and what a put leaves in it.
  abbrev pub held : Option Text → Option M
  held none = none
  held (some bytes) = some (merging.reader.read bytes)

  abbrev pub kept : M → Option M → M
  kept original none = original
  kept original (some value) = value

  abbrev pub after : Option M → M → M
  after none input = input
  after (some original) input = kept original (merging.merge original input)

  -- What is in the file can be parsed.
  abbrev pub IsSound : Option Text → Type 0
  IsSound file = (bytes : Text) → file ≡ some bytes → merging.reader.parses bytes ≡ true

module _ {M : Type 0} (merging : MergingClass M) (d : Disk) where
  read_file-write_out :
      (name : Text) (value : M) (files : Files)
      → d.can_write name ≡ true
      → merging.reader.parses (merging.reader.print value) ≡ true
      → merging.reader.read (merging.reader.print value) ≡ value
      → read_file merging.reader d (HashMap.find name (write_out merging d name value files).1)
        ≡ answer merging.reader d value
  unfolding write_out read_file
  read_file-write_out name value files w p r =
      rw (w, HashMap.find-assign_self name (merging.reader.print value) files) rw (p, r) refl

  read_file-write_merge :
      (name bytes : Text) (o : Option M) (files : Files)
      → HashMap.find name files ≡ some bytes
      → merging.reader.parses bytes ≡ true
      → d.can_write name ≡ true
      → merging.reader.parses (merging.reader.print (kept merging (merging.reader.read bytes) o))
        ≡ true
      → merging.reader.read (merging.reader.print (kept merging (merging.reader.read bytes) o))
        ≡ kept merging (merging.reader.read bytes) o
      → read_file merging.reader d (HashMap.find name (write_merge merging d name bytes o files).1)
        ≡ answer merging.reader d (kept merging (merging.reader.read bytes) o)
  unfolding write_merge read_file
  read_file-write_merge name bytes none files f s w p r = rw f rw s refl
  read_file-write_merge name bytes (some value) files f s w p r =
      read_file-write_out name value files w p r

  read_file-put_over :
      (name : Text) (input : M) (file : Option Text) (files : Files)
      → HashMap.find name files ≡ file
      → IsSound merging file
      → d.can_write name ≡ true
      → (let v = after merging (held merging file) input in
          merging.reader.parses (merging.reader.print v) ≡ true
          → merging.reader.read (merging.reader.print v) ≡ v
          → read_file merging.reader d
              (HashMap.find name (put_over merging d name input file files).1)
            ≡ answer merging.reader d v)
  unfolding put_over
  read_file-put_over name input none files f s w p r = read_file-write_out name input files w p r
  read_file-put_over name input (some bytes) files f s w p r = rw (s bytes refl) (
      read_file-write_merge name bytes (merging.merge (merging.reader.read bytes) input) files f
        (s bytes refl) w p r)

  -- For a class with the shared `put`, so for every class but that of priorities: where the file of a key can be written and, if there is one, parsed, and protobuf reads back
  -- what it printed for the value that the put leaves, a get after a put returns that value: the
  -- one put, or what the class makes of the old one and it; or KEY_DNE if it counts as absent.
  pub disk_get-put :
      (key serialized : Text) (files : Files)
      → IsSound merging (HashMap.find (file_of d key) files)
      → d.can_write (file_of d key) ≡ true
      → (let v =
            after merging
              (held merging (HashMap.find (file_of d key) files))
              (merging.reader.read serialized) in
          merging.reader.parses (merging.reader.print v) ≡ true
          → merging.reader.read (merging.reader.print v) ≡ v
          → disk_get merging.reader d key (disk_put merging d key serialized files).1
            ≡ answer merging.reader d v)
  unfolding disk_get disk_put
  disk_get-put key serialized files s w p r =
      read_file-put_over (file_of d key) (merging.reader.read serialized)
        (HashMap.find (file_of d key) files) files refl s w p r

  -- A put writes to the file of its key only.
  find-write_out :
      (name other : Text) (value : M) (files : Files)
      → other ≢ name
      → HashMap.find other (write_out merging d name value files).1 ≡ HashMap.find other files
  unfolding write_out
  find-write_out name other value files n =
      ground (
        arith,
        HashMap.find-assign name other (merging.reader.print value) files,
        ==_iff name other,
      )

  find-write_merge :
      (name other bytes : Text) (o : Option M) (files : Files)
      → other ≢ name
      → HashMap.find other (write_merge merging d name bytes o files).1 ≡ HashMap.find other files
  unfolding write_merge
  find-write_merge name other bytes none files n = refl
  find-write_merge name other bytes (some value) files n = find-write_out name other value files n

  pub find-put_over :
      (name other : Text) (input : M) (file : Option Text) (files : Files)
      → other ≢ name
      → HashMap.find other (put_over merging d name input file files).1 ≡ HashMap.find other files
  unfolding put_over
  find-put_over name other input none files n = find-write_out name other input files n
  find-put_over name other input (some bytes) files n = ground (
    arith,
    find-write_merge name other bytes (merging.merge (merging.reader.read bytes) input) files n,
  )
