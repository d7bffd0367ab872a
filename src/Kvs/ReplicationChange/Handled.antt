-- ===== src/Kvs/ReplicationChange/Handled.antt =====
-- The parts of replication_change_handler: the loop over the updates, the removal of keys, and what
-- thread 0 tells the others.
use anna.Prelude.{
  ℕ, zero, suc, ◌+◌, nat_beq, ◌≡◌, refl, ap, list_eq, nat_eq, true, false, List, [], ◌∷◌, inl, inr,
  Bool-cases,
}
use anna.Containers.HashMap
use anna.Containers.HashMap.{HashMap}
use anna.Containers.HashSet
use anna.Text.{Text}
use anna.Metadata.{all_tiers, ReplicationFactor}
use anna.Run.{Run, Ensures, returns, faults, Ensures-if, Ensures-bind}
use anna.Threads.{ServerThread, server_thread}
use anna.Kvs.{Serializers, Config, Server}
use anna.Kvs.Drop.{drop_key, drop_key_lem, DropsOne, Drops, Drops-cons}
use anna.Kvs.Membership.{as_first}
use anna.Kvs.Redistribute.{tell_workers, Found, threads_for}
use anna.Kvs.Redistribute.Covers.{threads_for-Extends}
use anna.Messages.{Net, text}
use anna.Messages.Carried.{Extends, Extends-refl, Extends-trans, send-Extends}
use anna.Route.{set_all_replications}
use anna.Kvs.ReplicationChange.{
  Change, change_only, change_found, change_key, change_keys, drop_keys,
}
use anna.Kvs.ReplicationChange.GivenUp.{Hands, Hands-server, Updates-net, onward}
use anna.Kvs.ReplicationChange.Dropped.{change_stored-Hands}

module _ {T : Type 0} (config : Config) where
  change_only-Hands :
      (update : ReplicationFactor) (c : Change T)
      → Hands config (update ∷ []) c (change_only config update.key update c)
  unfolding set_all_replications
  change_only-Hands update c =
      Hands-server config (update ∷ []) c _
        (record { same = refl; extends = Extends-refl c.server.net })

  change_found-Hands :
      (update : ReplicationFactor) (found : Found) (c : Change T)
      → Extends c.server.net found.1
      → Ensures (Hands config (update ∷ []) c) (change_found config update.key update found c)
  change_found-Hands update ((orig, false), net) c e =
      let c' : Change T = record c { server = record c.server { net = net } } in
      onward config [] (update ∷ []) c c'
        (Hands-server config [] c c'.server (Updates-net config c.server net e))
        (returns (change_only-Hands update c'))
  change_found-Hands update ((orig, true), net) c e =
      let c' : Change T = record c { server = record c.server { net = net } } in
      onward config [] (update ∷ []) c c'
        (Hands-server config [] c c'.server (Updates-net config c.server net e))
        (change_stored-Hands config update orig c')

  change_key-Hands :
      (update : ReplicationFactor) (c : Change T)
      → Ensures (Hands config (update ∷ []) c) (change_key config update c)
  unfolding change_key
  change_key-Hands update c =
      Ensures-if (HashMap.contains update.key c.server.stored_key_map) _ _
        (λ _.
          Ensures-bind (λ found. Extends c.server.net found.1)
            (threads_for config all_tiers update.key c.server) _
            (threads_for-Extends config all_tiers update.key c.server)
            (λ found e. change_found-Hands update found c e))
        (λ _. returns (change_only-Hands update c))

  pub change_keys-Hands :
      (updates : List ReplicationFactor) (c : Change T)
      → Ensures (Hands config updates c) (change_keys config updates c)
  unfolding change_keys
  change_keys-Hands [] c = returns (
      Hands-server config [] c c.server
        (Updates-net config c.server c.server.net (Extends-refl c.server.net)))
  change_keys-Hands (update ∷ updates) c =
      Ensures-bind (Hands config (update ∷ []) c) (change_key config update c) _
        (change_key-Hands update c)
        (λ c' h. onward config (update ∷ []) updates c c' h (change_keys-Hands updates c'))

module _ (S : Serializers) where
  Drops-onward :
      (key : Text) (keys : List Text) (s s' : Server S.Store) (changeset : List Text)
      {m : Run (Server S.Store)}
      → HashMap.Distinct s.stored_key_map
      → DropsOne S key s s'
      → Ensures (Drops keys (record s' { local_changeset = changeset })) m
      → Ensures (Drops (key ∷ keys) s) m
  Drops-onward key keys s s' changeset d e (returns h) = returns (
      Drops-cons S key keys s (record s' { local_changeset = changeset }) _ d
        (ap (λ (r : Server S.Store). record r { local_changeset = changeset }) e) h)
  Drops-onward key keys s s' changeset d e faults = faults

  pub drop_keys-Drops :
      (keys : List Text) (s : Server S.Store)
      → HashMap.Distinct s.stored_key_map
      → Ensures (Drops keys s) (drop_keys S keys s)
  unfolding drop_keys HashSet.contains
  drop_keys-Drops [] s d = returns (record { stored = λ k. refl; distinct = d; rest = refl })
  drop_keys-Drops (key ∷ keys) s d =
      Ensures-bind (DropsOne S key s) (drop_key S key s) _ (drop_key_lem S key s) (λ s' e.
        let f : s'.stored_key_map ≡ HashMap.erase key s.stored_key_map =
          ap (λ (r : Server S.Store). r.stored_key_map) e in
        let d' : HashMap.Distinct s'.stored_key_map =
          rw f (HashMap.erase-Distinct key s.stored_key_map d) in
        Drops-onward key keys s s' (HashSet.erase key s'.local_changeset) d e (
          drop_keys-Drops keys
            (record s' { local_changeset = HashSet.erase key s'.local_changeset }) d'))

-- Thread 0 tells the others, and nobody takes a message back.
pub tell_workers-Extends :
    (address : ServerThread → Text) (wt : ServerThread) (rounds tid : ℕ) (message : Text)
    (net : Net)
    → Extends net (tell_workers address wt rounds tid message net)
unfolding tell_workers
tell_workers-Extends address wt zero tid message net = Extends-refl net
tell_workers-Extends address wt (suc rounds) tid message net =
    Extends-trans net _ _
      (send-Extends (address (server_thread wt.public_ip wt.private_ip tid)) (text message) net)
      (tell_workers-Extends address wt rounds (tid + 1) message _)

pub as_first-Extends :
    (config : Config) (act : Net → Net) (net : Net)
    → Extends net (act net)
    → Extends net (as_first config act net)
as_first-Extends config act net h = elim (Bool-cases (nat_beq config.wt.tid 0)) [
  | inl first ↦ rw first h
  | inr other ↦ rw other (Extends-refl net)
]
