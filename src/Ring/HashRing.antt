-- ===== src/Ring/HashRing.antt =====
-- HashRing of include/hash_ring.hpp, with the hashers of include/hashers.hpp. The hash of the C++
-- library, `std::hash<string>`, is a parameter.
pub mod Membership
use anna.Prelude.{
  ℕ, zero, suc, ◌+◌, ◌%◌, ◌==◌, list_eq, nat_eq, Bool, true, false, Option, none, some, List, [],
  ◌∷◌, ◌++◌, if◌then◌else◌, ℤ, pos, ltb_ℤ,
}
use anna.Containers.HashMap
use anna.Containers.HashMap.{HashMap}
use anna.Text.{Text, codes, to_string}
use anna.Threads.{ServerThread, id, virtual_id}
use anna.Ring.ConsistentHashMap

-- The two overloads of a hasher, for threads and for keys.
pub record Hasher : Type 0 where
  pub of_thread : ServerThread → ℕ
  pub of_key : Text → ℕ

-- GlobalHasher, whose results are cut to 32 bits
abbrev pub global_hasher : (Text → ℕ) → Hasher
global_hasher std_hash = record {
  of_thread = λ th. std_hash (codes "GLOBAL" ++ virtual_id th) % 0x1_0000_0000;
  of_key = λ key. std_hash (codes "GLOBAL" ++ key) % 0x1_0000_0000;
}

-- LocalHasher
abbrev pub local_hasher : (Text → ℕ) → Hasher
local_hasher std_hash = record {
  of_thread = λ th. std_hash (to_string th.tid ++ (codes "_" ++ to_string th.virtual_num));
  of_key = std_hash;
}

-- `unique_servers` is a set of threads under their `operator==`, which compares ids: a map from the
-- id to the thread that was inserted.
pub record HashRing : Type 0 where
  pub nodes : List (ℕ × ServerThread)
  pub unique_servers : HashMap Text ServerThread
  pub server_join_count : HashMap Text ℤ

abbrev pub empty : HashRing
empty = record { nodes = []; unique_servers = []; server_join_count = [] }

-- kVirtualThreadNum of include/kvs_common.hpp
abbrev pub virtual_thread_num : ℕ
virtual_thread_num = 3000

abbrev pub virtual_thread : Text → Text → ℕ → ℕ → ServerThread
virtual_thread public_ip private_ip tid virtual_num = record {
  public_ip = public_ip;
  private_ip = private_ip;
  tid = tid;
  virtual_num = virtual_num;
}

module _ (hasher : Hasher) (public_ip private_ip : Text) where
  -- `for (virtual_num = …; virtual_num < kVirtualThreadNum; virtual_num++)`, by the rounds left
  unfoldable pub insert_virtual : ℕ → ℕ → ℕ → List (ℕ × ServerThread) → List (ℕ × ServerThread)
  insert_virtual tid zero virtual_num nodes = nodes
  insert_virtual tid (suc rounds) virtual_num nodes =
      let st = virtual_thread public_ip private_ip tid virtual_num in
      insert_virtual tid rounds (virtual_num + 1)
        (ConsistentHashMap.insert (hasher.of_thread st) st nodes)

  unfoldable pub erase_virtual : ℕ → ℕ → ℕ → List (ℕ × ServerThread) → List (ℕ × ServerThread)
  erase_virtual tid zero virtual_num nodes = nodes
  erase_virtual tid (suc rounds) virtual_num nodes =
      let st = virtual_thread public_ip private_ip tid virtual_num in
      erase_virtual tid rounds (virtual_num + 1)
        (ConsistentHashMap.erase (hasher.of_thread st) nodes)

  -- Whether the node is new, or rejoins with a greater join count.
  unfoldable pub insert : ℤ → ℕ → HashRing → Bool × HashRing
  insert join_count tid ring =
      let new_thread = virtual_thread public_ip private_ip tid 0 in
      if HashMap.contains (id new_thread) ring.unique_servers
      then (if ltb_ℤ (HashMap.at (pos 0) private_ip ring.server_join_count) join_count
          then (
            true,
            record ring {
              server_join_count = HashMap.assign private_ip join_count ring.server_join_count;
            },
          )
          else (false, ring))
      else (
        true,
        record {
          nodes = insert_virtual tid virtual_thread_num 0 ring.nodes;
          unique_servers = HashMap.assign (id new_thread) new_thread ring.unique_servers;
          server_join_count = HashMap.assign private_ip join_count ring.server_join_count;
        },
      )

  unfoldable pub remove : ℕ → HashRing → HashRing
  remove tid ring = record {
    nodes = erase_virtual tid virtual_thread_num 0 ring.nodes;
    unique_servers =
        HashMap.erase (id (virtual_thread public_ip private_ip tid 0)) ring.unique_servers;
    server_join_count = HashMap.erase private_ip ring.server_join_count;
  }
