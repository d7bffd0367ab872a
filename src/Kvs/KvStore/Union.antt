-- ===== src/Kvs/KvStore/Union.antt =====
-- A store of sets (MemorySetKVS in include/kvs/server_utils.hpp) keeps, under each key, the union of
-- what was written to it.
use anna.Prelude.{◌==◌, ◌≡◌, arith, list_eq, nat_eq, Bool, false, ◌&&◌, ◌||◌, List, [], ◌∷◌}
use anna.Containers.HashMap
use anna.Containers.HashMap.{HashMap}
use anna.Containers.HashSet
use anna.Text.{Text}
use anna.Lattice.Set.{merge_set, contains-merge_set}
use anna.Kvs.KvStore.{put, put_all, at-put}

-- Whether one of the writes to the key has the element.
unfoldable pub written : Text → Text → List (Text × List Text) → Bool
written k x [] = false
written k x ((j, v) ∷ log) = (j == k && HashSet.contains x v) || written k x log

-- After any writes, an element is in the set of a key if and only if it was there before or one of
-- the writes to this key has it; so neither the order nor the repetition of the writes matters.
pub put_all-union :
    (k x : Text) (log : List (Text × List Text)) (db : HashMap Text (List Text))
    → HashSet.contains x (HashMap.at [] k (put_all [] merge_set log db))
      ≡ (HashSet.contains x (HashMap.at [] k db) || written k x log)
unfolding put_all written
put_all-union k x [] db = ground arith
put_all-union k x ((j, v) ∷ log) db = ground (
  arith,
  put_all-union k x log (put [] merge_set j v db),
  at-put [] merge_set j k v db,
  contains-merge_set x (HashMap.at [] k db) v,
)
