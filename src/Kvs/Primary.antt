-- ===== src/Kvs/Primary.antt =====
-- is_primary_replica of src/kvs/utils.cpp: which of the threads that hold a key reports its size.
use anna.Prelude.{
  ℕ, ◌==◌, ==_iff, ◌≡◌, list_eq, nat_eq, nat_beq, ltb, Bool, true, false, ◌&&◌, ◌||◌, Option, none,
  some, List, [], ◌∷◌, arith, if◌then◌else◌,
}
use anna.Containers.HashMap
use anna.Containers.HashMap.{HashMap}
use anna.Text.{Text}
use anna.Metadata.{
  Tier, memory, tier_number, tier_eq, all_tiers, KeyReplication, no_replication, set_global,
}
use anna.Threads.{ServerThread, same_thread}
use anna.Threads.Identity.{same_thread_iff}
use anna.Ring.ConsistentHashMap.Disruption.{owner}
use anna.Ring.HashRing
use anna.Ring.HashRing.{HashRing, Hasher, global_hasher, local_hasher}
use anna.Ring.Responsible.{Library, GlobalRingMap}

-- `key_replication_map[key].global_replication_[tier]`: the value, and the map, in which it now
-- stands.
unfoldable pub read_global :
    Text → Tier → HashMap Text KeyReplication → ℕ × HashMap Text KeyReplication
read_global key tier m =
    let value = HashMap.at 0 tier (HashMap.at no_replication key m).global_replication in
    (value, set_global key tier value m)

-- `for (const Tier &tier : kAllTiers)`: whether a tier above has a replica
unfoldable pub has_upper_tier_replica :
    Text → Tier → List Tier → HashMap Text KeyReplication → Bool × HashMap Text KeyReplication
has_upper_tier_replica key self_tier [] m = (false, m)
has_upper_tier_replica key self_tier (tier ∷ tiers) m =
    let (value, read) = read_global key tier m in
    let upper = ltb (tier_number tier) (tier_number self_tier) in
    let (later, m') = has_upper_tier_replica key self_tier tiers (if upper then read else m) in
    ((upper && ltb 0 value) || later, m')

-- `global_pos != end && st.private_ip().compare(global_pos->second.private_ip()) == 0`
abbrev at_address : ServerThread → Option (ℕ × ServerThread) → Bool
at_address st none = false
at_address st (some n) = st.private_ip == n.1.private_ip

-- `local_pos != end && st.tid() == local_pos->second.tid()`
abbrev at_number : ServerThread → Option (ℕ × ServerThread) → Bool
at_number st none = false
at_number st (some n) = st.tid == n.1.tid

-- The two early returns, with the map as each leaves it.
abbrev verdict :
    Bool
    → Bool
    → Bool
    → HashMap Text KeyReplication
    → HashMap Text KeyReplication
    → Bool × HashMap Text KeyReplication
verdict true upper owners m m' = (false, m)
verdict false true owners m m' = (false, m')
verdict false false owners m m' = (owners, m')

module _ (lib : Library) (self_tier : Tier) where
  -- The nodes at which the two look-ups stop.
  unfoldable pub at_owners : Text → GlobalRingMap → GlobalRingMap → ServerThread → Bool
  at_owners key global_rings local_rings st =
      at_address st (
        owner ((global_hasher lib.std_hash).of_key key)
          (HashMap.at HashRing.empty self_tier global_rings).nodes)
      && at_number st (
          owner ((local_hasher lib.std_hash).of_key key)
            (HashMap.at HashRing.empty self_tier local_rings).nodes)

  unfoldable pub is_primary_replica :
      Text
      → HashMap Text KeyReplication
      → GlobalRingMap
      → GlobalRingMap
      → ServerThread
      → Bool × HashMap Text KeyReplication
  is_primary_replica key m global_rings local_rings st =
      let (value, m') = read_global key self_tier m in
      let (upper, m'') =
        if ltb (tier_number memory) (tier_number self_tier)
        then has_upper_tier_replica key self_tier all_tiers m'
        else (false, m') in
      verdict (nat_beq value 0) upper (at_owners key global_rings local_rings st) m' m''

  at_owners-same_thread :
      (key : Text) (global_rings local_rings : GlobalRingMap) (st st' : ServerThread)
      → at_owners key global_rings local_rings st ≡ true
      → at_owners key global_rings local_rings st' ≡ true
      → same_thread st st' ≡ true
  unfolding at_owners
  at_owners-same_thread key global_rings local_rings st st' h k = (same_thread_iff st st').1 (
      both
        (owner ((global_hasher lib.std_hash).of_key key)
          (HashMap.at HashRing.empty self_tier global_rings).nodes)
        (owner ((local_hasher lib.std_hash).of_key key)
          (HashMap.at HashRing.empty self_tier local_rings).nodes)
        h k)
    where
      both :
          (g l : Option (ℕ × ServerThread))
          → (at_address st g && at_number st l) ≡ true
          → (at_address st' g && at_number st' l) ≡ true
          → (st.private_ip ≡ st'.private_ip) × (st.tid ≡ st'.tid)
      both none l a b = absurd (cc)
      both (some n) none a b = absurd (ground arith)
      both (some n) (some m) a b =
          let ip = ==_iff st.private_ip n.1.private_ip in
          let ip' = ==_iff st'.private_ip n.1.private_ip in
          let tid = ==_iff st.tid m.1.tid in
          let tid' = ==_iff st'.tid m.1.tid in
          (ground (arith, ip, ip', a, b), ground (arith, tid, tid', a, b))

  guarded :
      (zero_replicas upper owners : Bool) (m m' : HashMap Text KeyReplication)
      → (verdict zero_replicas upper owners m m').0 ≡ true
      → owners ≡ true
  guarded true upper owners m m' h = absurd (cc)
  guarded false true owners m m' h = absurd (cc)
  guarded false false owners m m' h = h

  primary-at_owners :
      (key : Text) (m : HashMap Text KeyReplication) (global_rings local_rings : GlobalRingMap)
      (st : ServerThread)
      → (is_primary_replica key m global_rings local_rings st).0 ≡ true
      → at_owners key global_rings local_rings st ≡ true
  unfolding is_primary_replica
  primary-at_owners key m global_rings local_rings st h = guarded _ _ _ _ _ h

  -- Of the threads of one tier at most one is the primary replica of a key: two threads that take
  -- themselves for it, on the same rings and whatever replication factors they know, are equal.
  pub is_primary_replica-same_thread :
      (key : Text) (m m' : HashMap Text KeyReplication) (global_rings local_rings : GlobalRingMap)
      (st st' : ServerThread)
      → (is_primary_replica key m global_rings local_rings st).0 ≡ true
      → (is_primary_replica key m' global_rings local_rings st').0 ≡ true
      → same_thread st st' ≡ true
  is_primary_replica-same_thread key m m' global_rings local_rings st st' h k =
      at_owners-same_thread key global_rings local_rings st st'
        (primary-at_owners key m global_rings local_rings st h)
        (primary-at_owners key m' global_rings local_rings st' k)
