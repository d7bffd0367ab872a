-- ===== src/Tests/Disk.antt =====
-- Examples for the disk serializers.
use anna.Prelude.{ℕ, ◌≡◌, refl, ap, arith, list_eq, nat_eq, Bool, true, [], ◌∷◌, length}
use anna.Containers.HashMap
use anna.Text.{Text, codes}
use anna.Messages.{LatticeType, AnnaError, no_error}
use anna.Kvs.Memory.{Protobuf}
use anna.Kvs.Disk.{Disk, Files, fname, disk_get, disk_put, disk_lww, disk_priority, put_priority}
use anna.Kvs.Disk.Laws.{disk_get-put}
use anna.Kvs.Disk.Lost.{put_priority-lost}
use anna.Kvs.Disk.Interface.{get_file, put_file, get_file-put_file_ne}
use anna.Tests.Setup.{plain}

abbrev first : Text → ℕ
first [] = 0
first (n ∷ t) = n

abbrev rest : Text → Text
rest [] = []
rest (n ∷ t) = t

abbrev last : Text → ℕ
last [] = 0
last (n ∷ []) = n
last (n ∷ m ∷ t) = last (m ∷ t)

-- A wire format in which the timestamp or the priority comes first, and nothing stands for 0 and
-- an empty value.
abbrev numbered : Protobuf
numbered = record plain {
  parse_lww = λ t. (first t, rest t);
  print_lww = λ n t. n ∷ t;
  parse_priority = λ t. (first t, rest t);
  print_priority = λ n t. n ∷ t;
}

abbrev all_parse : Text → Bool
all_parse t = true

abbrev disk : Disk
disk = record {
  tid = 0;
  ebs_root = codes "/ebs/";
  opened = λ name. name;
  can_write = λ name. true;
  position_after = length;
}

abbrev files : Files
files = (codes "/ebs/ebs_0/k", 3 ∷ codes "old") ∷ []

disk_get-put_example :
    disk_get
      (disk_lww numbered all_parse).reader
      disk
      (codes "k")
      (disk_put (disk_lww numbered all_parse) disk (codes "k") (5 ∷ codes "new") files).1
    ≡ (5 ∷ codes "new", no_error)
unfolding fname HashMap.find anna.Text.to_string
disk_get-put_example =
    disk_get-put (disk_lww numbered all_parse) disk (codes "k") (5 ∷ codes "new") files
      (λ bytes h. refl) refl refl refl

put_priority-lost_example :
    disk_get
      (disk_priority numbered all_parse)
      disk
      (codes "k")
      (put_priority numbered all_parse disk (codes "k") (5 ∷ codes "new") []).1
    ≡ ([], AnnaError.key_dne)
unfolding HashMap.find
put_priority-lost_example =
    put_priority-lost numbered all_parse disk (codes "k") (5 ∷ codes "new") [] refl refl refl refl
      refl

get_file-put_file_ne_example :
    get_file numbered
      (λ t. all_parse)
      disk
      LatticeType.lww
      (codes "k")
      (put_file numbered
        (λ t. all_parse)
        disk
        LatticeType.priority
        (codes "j")
        (5 ∷ codes "new")
        files).1
    ≡ get_file numbered (λ t. all_parse) disk LatticeType.lww (codes "k") files
unfolding fname anna.Text.to_string
get_file-put_file_ne_example =
    get_file-put_file_ne numbered (λ t. all_parse) disk LatticeType.lww LatticeType.priority
      (codes "k") (codes "j") (5 ∷ codes "new") files (λ e. absurd (omega (arith, ap last e)))
