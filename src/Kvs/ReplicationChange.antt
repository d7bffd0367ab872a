-- ===== src/Kvs/ReplicationChange.antt =====
-- replication_change_handler of src/kvs/replication_change_handler.cpp: the monitor changed
-- replication factors, and keys go to the threads that hold them now.
pub mod Factors
pub mod GivenUp
pub mod Dropped
pub mod Handled
pub mod Safe
use anna.Prelude.{
  ℕ, zero, suc, ◌+◌, ◌-◌, ◌==◌, list_eq, nat_eq, nat_beq, ltb, Bool, true, false, not, ◌&&◌, ◌||◌,
  Option, none, some, List, [], ◌∷◌, ◌++◌, if◌then◌else◌,
}
use anna.Containers.HashMap
use anna.Containers.HashMap.{HashMap}
use anna.Containers.HashSet
use anna.Text.{Text}
use anna.Messages.{Net, LatticeType}
use anna.Metadata.{
  Tier, tier_eq, all_tiers, KeyReplication, no_replication, ReplicationValue, ReplicationFactor,
  set_global, set_local, set_replication,
}
use anna.Run.{Run, ok, fault, no_threads, null_serializer, ◌>>=◌}
use anna.Threads.{ServerThread, id, replication_change_connect_address}
use anna.Ring.Walk.{has}
use anna.Kvs.{Serializers, KeyProperty, Config, Server}
use anna.Kvs.Drop.{drop_key}
use anna.Kvs.Gossip.{send_gossip}
use anna.Kvs.Redistribute.{AddressKeysetMap, add_key_to, gossip_addresses, Found, threads_for}
use anna.Kvs.Membership.{as_first, tell_threads}

-- `if (global.value() < key_replication_map[key].global_replication_[global.tier()])`, before each
-- value is set: whether one was greater
unfoldable pub lower_globals :
    Text → List ReplicationValue → HashMap Text KeyReplication → Bool × HashMap Text KeyReplication
lower_globals key [] m = (false, m)
lower_globals key (v ∷ values) m =
    let old = HashMap.at 0 v.tier (HashMap.at no_replication key m).global_replication in
    let (later, m') = lower_globals key values (set_global key v.tier v.value m) in
    (ltb v.value old || later, m')

unfoldable pub lower_locals :
    Text → List ReplicationValue → HashMap Text KeyReplication → Bool × HashMap Text KeyReplication
lower_locals key [] m = (false, m)
lower_locals key (v ∷ values) m =
    let old = HashMap.at 0 v.tier (HashMap.at no_replication key m).local_replication in
    let (later, m') = lower_locals key values (set_local key v.tier v.value m) in
    (ltb v.value old || later, m')

-- `std::find(orig_threads.begin(), orig_threads.end(), thread) == orig_threads.end()`
unfoldable pub new_threads : List ServerThread → List ServerThread → List ServerThread
new_threads orig [] = []
new_threads orig (thread ∷ threads) =
    let rest = new_threads orig threads in if has id thread orig then rest else thread ∷ rest

-- `orig_threads.begin()->id() == wt.id()`, of which the first is evaluated only without a decrement
abbrev pub is_first : Bool → List ServerThread → ServerThread → Run Bool
is_first true orig wt = ok false
is_first false [] wt = fault no_threads
is_first false (thread ∷ orig) wt = ok (id thread == id wt)

-- The server, the keys to send and the keys to remove.
pub record Change (T : Type 0) : Type 0 where
  pub server : Server T
  pub addr_keyset_map : AddressKeysetMap
  pub remove_set : List Text

module _ {T : Type 0} (config : Config) where
  -- The thread is no longer responsible: the key goes to every thread that is.
  abbrev pub give_up : Text → List ServerThread → Change T → Change T
  give_up key threads c = record c {
    remove_set = HashSet.insert key c.remove_set;
    addr_keyset_map = add_key_to key (gossip_addresses threads) c.addr_keyset_map;
  }

  abbrev pub give_up_unless : Bool → Text → List ServerThread → Change T → Change T
  give_up_unless here key threads c = if here then c else give_up key threads c

  -- The first thread of before sends the key to the new ones.
  abbrev pub pass_on_if : Bool → Text → List ServerThread → List ServerThread → Change T → Change T
  pass_on_if first key orig threads c =
      if first
      then record c {
        addr_keyset_map =
            add_key_to key (gossip_addresses (new_threads orig threads)) c.addr_keyset_map;
      }
      else c

  -- After the second look-up.
  unfoldable pub compare_threads :
      Text → Bool → List ServerThread → List ServerThread × Bool → Change T → Run (Change T)
  compare_threads key decrement orig (threads, false) c = ok c
  compare_threads key decrement orig (threads, true) c = do
    first ← is_first decrement orig config.wt
    ok (pass_on_if first key orig threads (give_up_unless (has id config.wt threads) key threads c))

  -- The first look-up succeeded: the factors are set, and the threads are looked up again.
  unfoldable pub change_stored :
      Text → ReplicationFactor → List ServerThread → Change T → Run (Change T)
  change_stored key key_rep orig c = do
    let (lower, m) = lower_globals key key_rep.global c.server.key_replication_map
    let (lower', m') = lower_locals key key_rep.local m
    let s : Server T = record c.server { key_replication_map = m' }
    found ← threads_for config all_tiers key s
    compare_threads key (lower || lower') orig found.0
        (record c { server = record s { net = found.1 } })

  -- "just update the replication factor"
  abbrev pub change_only : Text → ReplicationFactor → Change T → Change T
  change_only key key_rep c = record c {
    server = record c.server {
      key_replication_map = set_replication key key_rep c.server.key_replication_map;
    };
  }

  abbrev pub change_found : Text → ReplicationFactor → Found → Change T → Run (Change T)
  change_found key key_rep ((orig, false), net) c =
      ok (change_only key key_rep (record c { server = record c.server { net = net } }))
  change_found key key_rep ((orig, true), net) c =
      change_stored key key_rep orig (record c { server = record c.server { net = net } })

  -- One round of the loop over the updates.
  unfoldable pub change_key : ReplicationFactor → Change T → Run (Change T)
  change_key key_rep c =
      if HashMap.contains key_rep.key c.server.stored_key_map
      then (do
        found ← threads_for config all_tiers key_rep.key c.server
        change_found key_rep.key key_rep found c)
      else ok (change_only key_rep.key key_rep c)

  unfoldable pub change_keys : List ReplicationFactor → Change T → Run (Change T)
  change_keys [] c = ok c
  change_keys (key_rep ∷ updates) c = change_key key_rep c >>= change_keys updates

module _ (S : Serializers) where
  -- `for (const string &key : remove_set)`, with `local_changeset.erase(key)`
  unfoldable pub drop_keys : List Text → Server S.Store → Run (Server S.Store)
  drop_keys [] s = ok s
  drop_keys (key ∷ keys) s = do
    s' ← drop_key S key s
    drop_keys keys (record s' { local_changeset = HashSet.erase key s'.local_changeset })

  -- `updates` is what protobuf reads from `serialized`.
  unfoldable pub replication_change_handler :
      Config → Text → List ReplicationFactor → Server S.Store → Run (Server S.Store)
  replication_change_handler config serialized updates s = do
    c ← change_keys config updates (record {
      server = record s {
        net =
            as_first config (tell_threads config replication_change_connect_address serialized)
              s.net;
      };
      addr_keyset_map = [];
      remove_set = [];
    })
    sent ← send_gossip S config c.addr_keyset_map c.server
    drop_keys c.remove_set sent
