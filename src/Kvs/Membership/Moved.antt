-- ===== src/Kvs/Membership/Moved.antt =====
-- A join loses no key: what a thread is to remove goes to the threads that hold it now.
use mathlib.Core.Path.{subst}
use anna.Prelude.{
  zero, suc, ◌==◌, ==_iff, ◌≡◌, refl, sym, ◌∙◌, list_eq, nat_eq, true, false, List, [], ◌∷◌, arith,
  ◌⊎◌, inl, inr, All, All-mono, Bool-cases, ℤ, pos, negsuc,
}
use anna.Containers.HashMap
use anna.Containers.HashMap.{HashMap}
use anna.Containers.HashSet
use anna.Text.{Text, split}
use anna.Messages.{Net}
use anna.Metadata.{Tier, tier_eq, tier_beq}
use anna.Run.{Run, ok, Ensures, returns, faults, Ensures-if, Ensures-ok, Ensures-eq, Ensures-bind}
use anna.Threads.{ServerThread, id}
use anna.Ring.HashRing
use anna.Ring.HashRing.{HashRing, global_hasher}
use anna.Ring.Walk.{has}
use anna.Kvs.{Config, Server}
use anna.Kvs.Redistribute.{
  AddressKeysetMap, add_key_to, gossip_addresses, Found, threads_for, keys_of,
}
use anna.Kvs.Redistribute.Covers.{IsSent, Grows, add_key_to-Grows, add_key_to-IsSent}
use anna.Kvs.Membership.{
  Announced, announced, announced_count, colon, rejoined, move_key, move_found, move_keys, take_in,
  set_ring, node_join_handler,
}

-- What `threads_for` reads.
pub record SameView {T : Type 0} (s s' : Server T) : Type 0 where
  pub global : s'.global_hash_rings ≡ s.global_hash_rings
  pub local : s'.local_hash_rings ≡ s.local_hash_rings
  pub replication : s'.key_replication_map ≡ s.key_replication_map

module _ {T : Type 0} (config : Config) where
  pub threads_for-SameView :
      (tiers : List Tier) (key : Text) (net : Net) (s s' : Server T)
      → SameView s s'
      → threads_for config tiers key (record s' { net = net })
        ≡ threads_for config tiers key (record s { net = net })
  unfolding threads_for
  threads_for-SameView tiers key net s s' v = rw (v.global, v.local, v.replication) refl

  -- The key was looked up, this thread is not among those that are responsible for it, and the map
  -- has it under the address of each of them.
  pub record IsMoved (s : Server T) (m : AddressKeysetMap) (key : Text) : Type 0 where
    pub net : Net
    pub net' : Net
    pub threads : List ServerThread
    pub looked_up :
        threads_for config (config.self_tier ∷ []) key (record s { net = net })
        ≡ ok ((threads, true), net')
    pub not_here : has id config.wt threads ≡ false
    pub sent : All (IsSent m key) (gossip_addresses threads)

  pub record Moves (s s' : Server T) : Type 0 where
    pub view : SameView s s'
    pub stored : s'.stored_key_map ≡ s.stored_key_map
    pub grows : Grows s.join_gossip_map s'.join_gossip_map
    pub removed :
        (k : Text)
        → HashSet.contains k s'.join_remove_set ≡ true
        → (HashSet.contains k s.join_remove_set ≡ true) ⊎ IsMoved s s'.join_gossip_map k

  Moves-net : (net : Net) (s : Server T) → Moves s (record s { net = net })
  Moves-net net s = record {
    view = record { global = refl; local = refl; replication = refl };
    stored = refl;
    grows = λ k a h. h;
    removed = λ k h. inl h;
  }

  IsMoved-view :
      (s s' : Server T) (m m' : AddressKeysetMap) (key : Text)
      → SameView s s'
      → Grows m m'
      → IsMoved s' m key
      → IsMoved s m' key
  IsMoved-view s s' m m' key v g h = record {
    net = h.net;
    net' = h.net';
    threads = h.threads;
    looked_up = sym (threads_for-SameView (config.self_tier ∷ []) key h.net s s' v) ∙ h.looked_up;
    not_here = h.not_here;
    sent = All-mono _ _ _ (λ a i. g key a i) h.sent;
  }

  Moves-trans : (s s' s'' : Server T) → Moves s s' → Moves s' s'' → Moves s s''
  Moves-trans s s' s'' a b = record {
    view = record {
      global = b.view.global ∙ a.view.global;
      local = b.view.local ∙ a.view.local;
      replication = b.view.replication ∙ a.view.replication;
    };
    stored = b.stored ∙ a.stored;
    grows = λ k d h. b.grows k d (a.grows k d h);
    removed = λ k h. split k (b.removed k h);
  }
    where
      earlier :
          (k : Text)
          → (HashSet.contains k s.join_remove_set ≡ true) ⊎ IsMoved s s'.join_gossip_map k
          → (HashSet.contains k s.join_remove_set ≡ true) ⊎ IsMoved s s''.join_gossip_map k
      earlier k (inl h) = inl h
      earlier k (inr h) = inr (
          IsMoved-view s s s'.join_gossip_map s''.join_gossip_map k
            (record { global = refl; local = refl; replication = refl }) b.grows h)

      split :
          (k : Text)
          → (HashSet.contains k s'.join_remove_set ≡ true) ⊎ IsMoved s' s''.join_gossip_map k
          → (HashSet.contains k s.join_remove_set ≡ true) ⊎ IsMoved s s''.join_gossip_map k
      split k (inl h) = earlier k (a.removed k h)
      split k (inr h) =
          inr (IsMoved-view s s' s''.join_gossip_map s''.join_gossip_map k a.view (λ _ _ i. i) h)

  move_key-Moves :
      (private_ip : Text) (join_count : ℤ) (key : Text) (threads : List ServerThread) (net : Net)
      (s : Server T)
      → threads_for config (config.self_tier ∷ []) key s ≡ ok ((threads, true), net)
      → Moves s (move_key config private_ip join_count key threads (record s { net = net }))
  unfolding move_key
  move_key-Moves private_ip (pos zero) key threads net s looked =
      elim (Bool-cases (has id config.wt threads)) [
        | inl here ↦ rw here (Moves-net net s)
        | inr gone ↦ rw gone (record {
          view = record { global = refl; local = refl; replication = refl };
          stored = refl;
          grows = add_key_to-Grows key (gossip_addresses threads) s.join_gossip_map;
          removed = λ k h. new_or_old k gone (elim (Bool-cases (key == k)) [
            | inl same ↦ inl same
            | inr other ↦ inr (ground (arith, HashSet.contains-insert key k s.join_remove_set))
          ]);
        })
      ]
    where
      new_or_old :
          (k : Text)
          → has id config.wt threads ≡ false
          → ((key == k) ≡ true) ⊎ (HashSet.contains k s.join_remove_set ≡ true)
          → (HashSet.contains k s.join_remove_set ≡ true)
            ⊎ IsMoved s (add_key_to key (gossip_addresses threads) s.join_gossip_map) k
      new_or_old k gone (inr old) = inl old
      new_or_old k gone (inl same) = rw (← (==_iff key k).0 same) (
          inr (record {
            net = s.net;
            net' = net;
            threads = threads;
            looked_up = looked;
            not_here = gone;
            sent = add_key_to-IsSent key (gossip_addresses threads) s.join_gossip_map;
          }))
  move_key-Moves private_ip (pos (suc n)) key threads net s looked = record {
    view = record { global = refl; local = refl; replication = refl };
    stored = refl;
    grows = add_key_to-Grows key (rejoined private_ip threads) s.join_gossip_map;
    removed = λ k h. inl h;
  }
  move_key-Moves private_ip (negsuc n) key threads net s looked = Moves-net net s

  move_found-Moves :
      (private_ip : Text) (join_count : ℤ) (key : Text) (found : Found) (s : Server T)
      → threads_for config (config.self_tier ∷ []) key s ≡ ok found
      → Moves s (move_found config private_ip join_count key found s)
  move_found-Moves private_ip join_count key ((threads, false), net) s looked = Moves-net net s
  move_found-Moves private_ip join_count key ((threads, true), net) s looked =
      move_key-Moves private_ip join_count key threads net s looked

  onward :
      (s s' : Server T) {r : Run (Server T)}
      → Moves s s'
      → Ensures (Moves s') r
      → Ensures (Moves s) r
  onward s s' h (returns k) = returns (Moves-trans s s' _ h k)
  onward s s' h faults = faults

  move_keys-Moves :
      (private_ip : Text) (join_count : ℤ) (keys : List Text) (s : Server T)
      → Ensures (Moves s) (move_keys config private_ip join_count keys s)
  unfolding move_keys
  move_keys-Moves private_ip join_count [] s = returns (Moves-net s.net s)
  move_keys-Moves private_ip join_count (key ∷ keys) s =
      Ensures-bind (λ found. threads_for config (config.self_tier ∷ []) key s ≡ ok found)
        (threads_for config (config.self_tier ∷ []) key s) _ (Ensures-eq _ (λ found e. e))
        (λ found e.
          onward s (move_found config private_ip join_count key found s)
            (move_found-Moves private_ip join_count key found s e)
            (move_keys-Moves private_ip join_count keys
              (move_found config private_ip join_count key found s)))

  take_in-Moves :
      (node : Announced) (join_count : ℤ) (serialized : Text) (s : Server T)
      → Ensures (Moves s) (take_in config node join_count serialized s)
  unfolding take_in
  take_in-Moves node join_count serialized s =
      Ensures-if (tier_beq node.tier config.self_tier) _ _
        (λ _.
          onward s _ (Moves-net _ s)
            (move_keys-Moves node.private_ip join_count (keys_of s.stored_key_map) _))
        (λ _. returns (Moves-net _ s))

  -- The state with the rings that the handler leaves.
  abbrev pub on_rings_of : Server T → Server T → Server T
  on_rings_of s' s = record s { global_hash_rings = s'.global_hash_rings }

  own_rings :
      (s s' : Server T) (rings : HashMap Tier HashRing)
      → Moves (record s { global_hash_rings = rings }) s'
      → Moves (on_rings_of s' s) s'
  own_rings s s' rings h =
      subst (λ r. Moves (record s { global_hash_rings = r }) s') (sym h.view.global) h

  -- After a join that is handled, each key newly marked for removal was looked up on the new rings,
  -- this thread is not among those responsible for it, and the key is to be sent to each of them.
  -- What was to be sent before still is, and the stored keys are as they were.
  pub node_join-Moves :
      (serialized : Text) (s s' : Server T)
      → node_join_handler config serialized s ≡ ok s'
      → Moves (on_rings_of s' s) s'
  unfolding node_join_handler
  node_join-Moves serialized s s' = Ensures-ok {P = λ s'. Moves (on_rings_of s' s) s'} _ (
      Ensures-bind (λ _. Unit) (announced (split serialized colon)) _ (Ensures-eq _ (λ _ _. tt))
        (λ node _.
          Ensures-bind (λ _. Unit) (announced_count (split serialized colon)) _
            (Ensures-eq _ (λ _ _. tt))
            (λ join_count _.
              let r =
                HashRing.insert (global_hasher config.lib.std_hash) node.public_ip node.private_ip
                  join_count 0 (HashMap.at HashRing.empty node.tier s.global_hash_rings) in
              let s1 : Server T = record s {
                global_hash_rings = set_ring node.tier r.1 s.global_hash_rings;
              } in
              Ensures-if r.0 _ _ (λ _. ends s1 (take_in-Moves node join_count serialized s1))
                (λ _. ends s1 (returns (Moves-net s.net s1))))))
    where
      ends :
          (s1 : Server T) {m : Run (Server T)}
          → Ensures (Moves (record s { global_hash_rings = s1.global_hash_rings })) m
          → Ensures (λ s'. Moves (on_rings_of s' s) s') m
      ends s1 (returns h) = returns (own_rings s _ s1.global_hash_rings h)
      ends s1 faults = faults
