-- ===== src/Kvs/Redistribute/Covers.antt =====
-- The map that a redistribution fills has every key under every address that was named for it.
use anna.Prelude.{
  ◌==◌, ==_iff, ==_refl, ◌≡◌, refl, list_eq, nat_eq, Bool, true, ◌||◌, List, [], ◌∷◌, arith, All,
  All-mono, if◌then◌else◌,
}
use anna.Containers.HashMap
use anna.Containers.HashSet
use anna.Text.{Text}
use anna.Messages.{Net}
use anna.Messages.Carried.{Extends, Extends-refl, Extends-trans}
use anna.Metadata.{Tier, is_metadata}
use anna.Ring.Responsible.Asks.{get_responsible_threads-Extends}
use anna.Run.{Run, ok, Ensures, returns, faults, Ensures-eq, Ensures-ok, Ensures-bind}
use anna.Threads.{ServerThread, replication_response_connect_address}
use anna.Kvs.{Config, Server}
use anna.Kvs.Redistribute.{AddressKeysetMap, add_key, add_key_to, Found, threads_for, spread_keys}

-- The key is to be sent to the address.
abbrev pub IsSent : AddressKeysetMap → Text → Text → Type 0
IsSent m key address = HashSet.contains key (HashMap.at [] address m) ≡ true

-- Nothing that is to be sent is dropped from the map.
abbrev pub Grows : AddressKeysetMap → AddressKeysetMap → Type 0
Grows m m' = (key address : Text) → IsSent m key address → IsSent m' key address

pub contains-add_key :
    (key address k a : Text) (m : AddressKeysetMap)
    → HashSet.contains k (HashMap.at [] a (add_key key address m)) ≡ (
        if address == a
        then (key == k || HashSet.contains k (HashMap.at [] a m))
        else HashSet.contains k (HashMap.at [] a m))
unfolding add_key
contains-add_key key address k a m = ground (
  arith,
  HashMap.find-assign address a (HashSet.insert key (HashMap.at [] address m)) m,
  HashSet.contains-insert key k (HashMap.at [] address m),
  ==_iff address a,
)

pub add_key-Grows : (key address : Text) (m : AddressKeysetMap) → Grows m (add_key key address m)
add_key-Grows key address m k a h = ground (arith, contains-add_key key address k a m)

pub add_key-IsSent :
    (key address : Text) (m : AddressKeysetMap) → IsSent (add_key key address m) key address
add_key-IsSent key address m =
    ground (arith, contains-add_key key address key address m, ==_refl key, ==_refl address)

pub add_key_to-Grows :
    (key : Text) (addresses : List Text) (m : AddressKeysetMap)
    → Grows m (add_key_to key addresses m)
unfolding add_key_to
add_key_to-Grows key [] m k a h = h
add_key_to-Grows key (address ∷ addresses) m k a h =
    add_key_to-Grows key addresses (add_key key address m) k a (add_key-Grows key address m k a h)

pub add_key_to-IsSent :
    (key : Text) (addresses : List Text) (m : AddressKeysetMap)
    → All (IsSent (add_key_to key addresses m) key) addresses
unfolding add_key_to
add_key_to-IsSent key [] m = tt
add_key_to-IsSent key (address ∷ addresses) m = (
  add_key_to-Grows key addresses (add_key key address m) key address (add_key-IsSent key address m),
  add_key_to-IsSent key addresses (add_key key address m),
)

-- A look-up takes no message back.
pub threads_for-Extends :
    {T : Type 0} (config : Config) (tiers : List Tier) (key : Text) (s : Server T)
    → Ensures (λ found. Extends s.net found.1) (threads_for config tiers key s)
unfolding threads_for
threads_for-Extends config tiers key s =
    Ensures-bind (λ _. Unit) (is_metadata key) _ (Ensures-eq _ (λ _ _. tt))
      (λ metadata _.
        get_responsible_threads-Extends config.lib (replication_response_connect_address config.wt)
          key metadata s.global_hash_rings s.local_hash_rings s.key_replication_map tiers s.net)

module _ {T : Type 0} (config : Config) (tiers : List Tier)
    (targets : Text → List ServerThread × Bool → List Text) where
  -- The key's threads were looked up, with some state of the sockets, and the map has the key under
  -- each of their targets.
  pub record IsCovered (s : Server T) (m : AddressKeysetMap) (key : Text) : Type 0 where
    pub net : Net
    pub found : Found
    pub looked_up : threads_for config tiers key (record s { net = net }) ≡ ok found
    pub sent : All (IsSent m key) (targets key found.0)

  pub record Covers (keys : List Text) (p q : Server T × AddressKeysetMap) : Type 0 where
    pub same : (net : Net) → record q.0 { net = net } ≡ record p.0 { net = net }
    pub extends : Extends p.0.net q.0.net
    pub grows : Grows p.1 q.1
    pub covered : All (IsCovered p.0 q.1) keys

  IsCovered-Grows :
      (s : Server T) (m m' : AddressKeysetMap) (key : Text)
      → Grows m m'
      → IsCovered s m key
      → IsCovered s m' key
  IsCovered-Grows s m m' key g c = record {
    net = c.net;
    found = c.found;
    looked_up = c.looked_up;
    sent = All-mono _ _ _ (λ a h. g key a h) c.sent;
  }

  onward :
      (key : Text) (keys : List Text) (s : Server T) (m : AddressKeysetMap) (found : Found)
      → threads_for config tiers key s ≡ ok found
      → {r : Run (Server T × AddressKeysetMap)}
      → Ensures (Covers keys (record s { net = found.1 }, add_key_to key (targets key found.0) m)) r
      → Ensures (Covers (key ∷ keys) (s, m)) r
  onward key keys s m found looked faults = faults
  onward key keys s m found looked (returns h) = returns (record {
    same = h.same;
    extends =
        Extends-trans s.net found.1 _ (Ensures-ok _ (threads_for-Extends config tiers key s) looked)
          h.extends;
    grows = λ k a g. h.grows k a (add_key_to-Grows key (targets key found.0) m k a g);
    covered = (
      record {
        net = s.net;
        found = found;
        looked_up = looked;
        sent =
            All-mono _ _ _ (λ a g. h.grows key a g) (add_key_to-IsSent key (targets key found.0) m);
      },
      All-mono _ _ _
          (λ k c. record { net = c.net; found = c.found; looked_up = c.looked_up; sent = c.sent })
          h.covered,
    );
  })

  pub spread_keys-Covers :
      (keys : List Text) (p : Server T × AddressKeysetMap)
      → Ensures (Covers keys p) (spread_keys config tiers targets keys p)
  unfolding spread_keys
  spread_keys-Covers [] p = returns (record {
    same = λ net. refl;
    extends = Extends-refl p.0.net;
    grows = λ k a h. h;
    covered = tt;
  })
  spread_keys-Covers (key ∷ keys) (s, m) =
      Ensures-bind (λ found. threads_for config tiers key s ≡ ok found)
        (threads_for config tiers key s) _ (Ensures-eq _ (λ found e. e))
        (λ found e. onward key keys s m found e (
          spread_keys-Covers keys
            (record s { net = found.1 }, add_key_to key (targets key found.0) m)))
