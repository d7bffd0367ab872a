-- ===== src/Monitor/Replication.antt =====
-- The change of replication factors by the monitor: src/monitor/replication_helpers.cpp.
pub mod Failed
pub mod Atomic
use anna.Prelude.{
  ℕ, zero, suc, ◌+◌, ◌==◌, list_eq, nat_eq, nat_beq, Bool, true, false, not, ◌&&◌, Option, none,
  some, List, [], ◌∷◌, ◌++◌, map, max, if◌then◌else◌,
}
use anna.Containers.HashMap
use anna.Containers.HashMap.{HashMap}
use anna.Containers.HashSet
use anna.Text.{Text}
use anna.Messages.{AnnaError, KeyTuple, KeyRequest, KeyResponse, Net, send, request, text}
use anna.Metadata.{
  Tier, memory, disk, tier_eq, all_tiers, KeyReplication, no_replication, ReplicationFactor,
  ReplicationValue, get_metadata_key, get_key_from_metadata,
}
use anna.Run.{Run, ok, fault, ◌>>=◌}
use anna.Threads.{
  ServerThread, replication_change_connect_address, monitoring_response_connect_address,
}
use anna.Ring.HashRing
use anna.Ring.HashRing.{global_hasher}
use anna.Ring.Responsible.{GlobalRingMap, responsible_global}
use anna.Ring.MetadataRequest.{Requests, prepare_metadata_put_request}
use anna.Route
use anna.Monitor.{Monitor, MonitorConfig}

unfoldable pub create_new_replication_vector : ℕ → ℕ → ℕ → ℕ → KeyReplication
create_new_replication_vector gm ge lm le = record {
  global_replication = (memory, gm) ∷ (disk, ge) ∷ [];
  local_replication = (memory, lm) ∷ (disk, le) ∷ [];
}

abbrev pub has_value : ℕ → Option ℕ → Bool
has_value n none = false
has_value n (some m) = nat_beq n m

-- The loops of `operator==`: each tier of the left is on the right, with the same value.
unfoldable pub values_in : HashMap Tier ℕ → HashMap Tier ℕ → Bool
values_in [] rhs = true
values_in ((tier, n) ∷ lhs) rhs =
    let rest = values_in lhs rhs in if has_value n (HashMap.find tier rhs) then rest else false

abbrev pub same_replication : KeyReplication → KeyReplication → Bool
same_replication lhs rhs =
    values_in lhs.global_replication rhs.global_replication
    && values_in lhs.local_replication rhs.local_replication

-- The two loops that fill a message.
abbrev pub to_values : HashMap Tier ℕ → List ReplicationValue
to_values values = map (λ p. record { tier = p.0; value = p.1 }) values

abbrev pub to_factor : Text → KeyReplication → ReplicationFactor
to_factor key rep = record {
  key = key;
  global = to_values rep.global_replication;
  local = to_values rep.local_replication;
}

-- The updates by address.
abbrev pub UpdateMap : Type 0
UpdateMap = HashMap Text (List ReplicationFactor)

unfoldable pub prepare_replication_factor_update :
    Text → Text → HashMap Text KeyReplication → UpdateMap → UpdateMap
prepare_replication_factor_update key server_address key_replication_map updates =
    HashMap.assign server_address
      (HashMap.at [] server_address updates
        ++ to_factor key (HashMap.at no_replication key key_replication_map) ∷ [])
      updates

unfoldable pub prepare_all : Text → List Text → HashMap Text KeyReplication → UpdateMap → UpdateMap
prepare_all key [] m updates = updates
prepare_all key (address ∷ addresses) m updates =
    prepare_all key addresses m (prepare_replication_factor_update key address m updates)

-- What `make_request` gets from a server, if anything in time, and how protobuf prints messages.
pub record Peers : Type 0 where
  pub answer : Text → KeyRequest → Option KeyResponse
  pub print_factor : ReplicationFactor → Text
  pub print_updates : List ReplicationFactor → Text
  pub print_lww : ℕ → Text → Text

-- `key_replication_map` and `addr_request_map`
pub record Changing : Type 0 where
  pub factors : HashMap Text KeyReplication
  pub requests : Requests

unfoldable pub failed_tuples : List KeyTuple → List Text → List Text
failed_tuples [] failed = failed
failed_tuples (tuple ∷ tuples) failed =
    failed_tuples tuples (HashSet.insert (get_key_from_metadata tuple.key) failed)

-- `tuple.error() == 2`
abbrev pub is_wrong_thread : AnnaError → Bool
is_wrong_thread AnnaError.wrong_thread = true
is_wrong_thread error = false

unfoldable pub rejected_tuples : List KeyTuple → List Text → List Text
rejected_tuples [] failed = failed
rejected_tuples (tuple ∷ tuples) failed = rejected_tuples tuples (
    if is_wrong_thread tuple.error
    then HashSet.insert (get_key_from_metadata tuple.key) failed
    else failed)

abbrev pub failed_of : KeyRequest → Option KeyResponse → List Text → List Text
failed_of r none failed = failed_tuples r.tuples failed
failed_of r (some res) failed = rejected_tuples res.tuples failed

module _ (peers : Peers) where
  -- "send updates to storage nodes"
  unfoldable pub make_requests : HashMap Text KeyRequest → List Text × Net → List Text × Net
  make_requests [] p = p
  make_requests ((address, r) ∷ more) (failed, net) =
      make_requests more (failed_of r (peers.answer address r) failed, send address (request r) net)

  unfoldable pub send_updates : UpdateMap → Net → Net
  send_updates [] net = net
  send_updates ((address, factors) ∷ updates) net =
      send_updates updates (send address (text (peers.print_updates factors)) net)

-- The address on which a routing node hears of the change.
abbrev pub routing_address : Text → Text
routing_address ip = Route.replication_change_connect_address (record { ip = ip; tid = 0 })

-- "restore rep factor for failed keys", from the originals of the requested keys
unfoldable pub restore :
    HashMap Text KeyReplication
    → List Text
    → HashMap Text KeyReplication
    → HashMap Text KeyReplication
restore orig [] factors = factors
restore orig (key ∷ failed) factors =
    restore orig failed (HashMap.assign key (HashMap.at no_replication key orig) factors)

-- orig_key_replication_map_info: the factors of the requested keys before the change
unfoldable pub originals :
    HashMap Text KeyReplication → HashMap Text KeyReplication → HashMap Text KeyReplication
originals [] factors = []
originals ((key, new_rep) ∷ more) factors =
    HashMap.assign key (HashMap.at no_replication key factors) (originals more factors)

module _ (config : MonitorConfig) where
  -- The threads of one tier that are told of the key.
  unfoldable pub told_threads :
      GlobalRingMap → KeyReplication → KeyReplication → Text → List Tier → Run (List ServerThread)
  told_threads rings now orig key [] = ok []
  told_threads rings now orig key (tier ∷ tiers) = do
    threads ←
        responsible_global (global_hasher config.lib.std_hash) key
          (max (HashMap.at 0 tier now.global_replication)
            (HashMap.at 0 tier orig.global_replication))
          (HashMap.at HashRing.empty tier rings)
    rest ← told_threads rings now orig key tiers
    ok (threads ++ rest)

  -- The second loop over the requests. `orig` is the map before the first. The entries with value 0
  -- that reading `global_replication_[tier]` makes for a tier without one are read, and not entered.
  unfoldable pub tell_changes :
      {D : Type 0}
      → Monitor D
      → HashMap Text KeyReplication
      → List Text
      → HashMap Text KeyReplication
      → UpdateMap
      → Run UpdateMap
  tell_changes m factors failed [] updates = ok updates
  tell_changes m factors failed ((key, new_rep) ∷ more) updates =
      if HashSet.contains key failed then tell_changes m factors failed more updates else (do
        threads ←
            told_threads m.global_hash_rings (HashMap.at no_replication key factors)
              (HashMap.at no_replication key m.key_replication_map) key all_tiers
        tell_changes m factors failed more (
            prepare_all key
              (map replication_change_connect_address threads ++ map routing_address m.routing_ips)
              factors updates))

module _ (config : MonitorConfig) (peers : Peers) (local_hash_rings : GlobalRingMap) where
  -- The put of the new factors into the storage tier.
  abbrev pub put_factor : GlobalRingMap → Text → KeyReplication → Requests → Run Requests
  put_factor rings key new_rep requests =
      prepare_metadata_put_request config.lib peers.print_lww (get_metadata_key key)
        (peers.print_factor (to_factor key new_rep)) (HashMap.at HashRing.empty memory rings)
        (HashMap.at HashRing.empty memory local_hash_rings)
        (monitoring_response_connect_address config.ip) requests

  -- One round of the first loop.
  unfoldable pub store_factor : GlobalRingMap → Text → KeyReplication → Changing → Run Changing
  store_factor rings key new_rep c =
      if same_replication new_rep (HashMap.at no_replication key c.factors)
      then ok (record c {
        factors = HashMap.assign key (HashMap.at no_replication key c.factors) c.factors;
      })
      else (do
        let factors = HashMap.assign key new_rep c.factors
        requests ← put_factor rings key new_rep c.requests
        ok (record { factors = factors; requests = requests }))

  unfoldable pub store_factors :
      GlobalRingMap → HashMap Text KeyReplication → Changing → Run Changing
  store_factors rings [] c = ok c
  store_factors rings ((key, new_rep) ∷ more) c =
      store_factor rings key new_rep c >>= store_factors rings more

  -- With `rid`, the number that the next request gets.
  unfoldable pub change_replication_factor :
      {D : Type 0} → HashMap Text KeyReplication → ℕ → Monitor D → Run (Monitor D × ℕ)
  change_replication_factor requests rid m = do
    c ← store_factors m.global_hash_rings requests (record {
      factors = m.key_replication_map;
      requests = record { addr_request_map = []; rid = rid; net = m.net };
    })
    let (failed, net) = make_requests peers c.requests.addr_request_map ([], c.requests.net)
    updates ← tell_changes config m c.factors failed requests []
    ok (
      record m {
        key_replication_map = restore (originals requests m.key_replication_map) failed c.factors;
        net = send_updates peers updates net;
      },
      c.requests.rid,
    )
