-- ===== src/Tests/Rings.antt =====
-- Examples for the hash ring and for the keys and threads that are looked up on it.
use anna.Prelude.{
  ℕ, ◌≡◌, refl, arith, list_eq, nat_eq, false, none, some, List, [], ◌∷◌, ◌++◌, All, length, take,
  if◌then◌else◌, leb, pos, suc, ◌+◌,
}
use anna.Text.{Text, codes}
use anna.Threads.{ServerThread, id, same_thread}
use anna.Run.{ok, fault, endless}
use anna.Metadata.{
  tier_eq, Tier, get_key_from_metadata, get_metadata_key, get_key_from_metadata-get_metadata_key,
}
use anna.Ring.ConsistentHashMap
use anna.Ring.ConsistentHashMap.{IsSorted}
use anna.Ring.ConsistentHashMap.Successor.{IsSuccessor, find-IsSuccessor}
use anna.Ring.ConsistentHashMap.Disruption.{owner, owner-erase}
use anna.Threads.Bind.{Socket}
use anna.Threads.Bind.Apart.{bind_address-apart}
use anna.Ring.Walk.{walk, distinct, distinct_from, has}
use anna.Ring.Walk.Distinct.{walk-distinct}
use anna.Ring.Walk.Stops.{walk_forever}
use anna.Ring.HashRing
use anna.Ring.HashRing.{HashRing, Hasher, global_hasher, local_hasher, virtual_thread}
use anna.Ring.HashRing.Membership.{
  IsConsistent, insert-IsConsistent, remove-gone, remove-IsConsistent,
}
use anna.Ring.Responsible.{responsible_global}
use anna.Ring.Responsible.Order.{clockwise, responsible_global-clockwise}

abbrev three : List (ℕ × ℕ)
three = (10, 1) ∷ (20, 2) ∷ (30, 1) ∷ []

find-IsSuccessor_example :
    (n : ℕ × ℕ) × (rest : List (ℕ × ℕ)) × (ConsistentHashMap.find 25 three ≡ n ∷ rest)
    × IsSuccessor 25 three n
find-IsSuccessor_example =
    find-IsSuccessor 25 (10, 1) ((20, 2) ∷ (30, 1) ∷ [])
      ((omega arith, (omega arith, tt)), ((omega arith, tt), (tt, tt)))

owner-erase_example : owner 25 (ConsistentHashMap.erase 10 three) ≡ some (30, 1)
unfolding ConsistentHashMap.find ConsistentHashMap.lower_bound
owner-erase_example = owner-erase 25 10 three (30, 1) refl (λ e. omega arith)

abbrev itself : ℕ → ℕ
itself n = n

abbrev tail_of_ring : List ℕ
tail_of_ring = 5 ∷ 4 ∷ []

abbrev from_here : List ℕ
from_here = 5 ∷ []

walk-distinct_example :
    walk itself
      (length from_here + (length (4 ∷ tail_of_ring) + suc 0))
      2
      (4 ∷ tail_of_ring)
      from_here
      ([], 0)
    ≡ some (take 2 (distinct itself (from_here ++ 4 ∷ tail_of_ring)))
unfolding distinct_from has
walk-distinct_example = walk-distinct itself 0 2 4 tail_of_ring [] 5 (omega arith)

walk_forever_example : walk itself 1000 3 (4 ∷ tail_of_ring) (5 ∷ []) ([], 0) ≡ none
unfolding distinct_from has
walk_forever_example = walk_forever itself 1000 3 4 tail_of_ring [] 5 (omega arith)

-- A hash that tells texts apart by their length.
abbrev std_hash : Text → ℕ
std_hash = length

abbrev ip : Text
ip = codes "10.0.0.1"

empty-IsConsistent : IsConsistent std_hash HashRing.empty
empty-IsConsistent = record { sorted = tt; placed = tt; servers = tt }

insert-IsConsistent_example :
    IsConsistent std_hash
      (HashRing.insert (global_hasher std_hash) ip ip (pos 0) 0 HashRing.empty).1
insert-IsConsistent_example =
    insert-IsConsistent std_hash ip ip 0 (pos 0) HashRing.empty empty-IsConsistent

-- The ring of one server.
abbrev joined : HashRing
joined = (HashRing.insert (global_hasher std_hash) ip ip (pos 0) 0 HashRing.empty).1

joined-IsConsistent : IsConsistent std_hash joined
joined-IsConsistent = insert-IsConsistent std_hash ip ip 0 (pos 0) HashRing.empty empty-IsConsistent

remove-gone_example :
    All
      (λ n. same_thread n.1 (virtual_thread ip ip 0 0) ≡ false)
      (HashRing.remove (global_hasher std_hash) ip ip 0 joined).nodes
remove-gone_example = remove-gone std_hash ip ip 0 joined joined-IsConsistent

remove-IsConsistent_example :
    IsConsistent std_hash (HashRing.remove (global_hasher std_hash) ip ip 0 joined)
remove-IsConsistent_example = remove-IsConsistent std_hash ip ip 0 joined joined-IsConsistent

-- A ring of two servers, with a virtual node each.
abbrev first_node : ServerThread
first_node = virtual_thread ip ip 0 0

abbrev second_node : ServerThread
second_node = virtual_thread (codes "10.0.0.2") (codes "10.0.0.2") 1 0

abbrev rest_of_ring : List (ℕ × ServerThread)
rest_of_ring = (9, second_node) ∷ []

abbrev pair_ring : HashRing
pair_ring = record {
  nodes = (4, first_node) ∷ rest_of_ring;
  unique_servers = [];
  server_join_count = [];
}

responsible_global-clockwise_example :
    (let threads =
        clockwise id
          (ConsistentHashMap.find ((global_hasher std_hash).of_key (codes "k")) pair_ring.nodes)
          pair_ring.nodes in
      responsible_global (global_hasher std_hash) (codes "k") 2 pair_ring
      ≡ (if leb 2 (length threads) then ok (take 2 threads) else fault endless))
responsible_global-clockwise_example =
    responsible_global-clockwise (global_hasher std_hash) (codes "k") 2 pair_ring (4, first_node)
      rest_of_ring refl

get_key_from_metadata-get_metadata_key_example :
    get_key_from_metadata (get_metadata_key (codes "a|b")) ≡ codes "a|b"
get_key_from_metadata-get_metadata_key_example =
    get_key_from_metadata-get_metadata_key (codes "a|b")

abbrev defaults : Tier → ℕ
defaults tier = 2

bind_address-apart_example :
    (Socket.gossip_puller ≡ Socket.gossip_puller) × (first_node.tid ≡ first_node.tid)
bind_address-apart_example =
    bind_address-apart Socket.gossip_puller Socket.gossip_puller first_node first_node (omega arith)
      (omega arith) refl
