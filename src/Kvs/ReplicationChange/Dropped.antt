-- ===== src/Kvs/ReplicationChange/Dropped.antt =====
-- A change of replication factors loses no key: what the thread removes was sent to every thread that
-- is responsible for it with the new factors.
use anna.Prelude.{
  ◌==◌, ==_iff, ◌≡◌, refl, ◌∙◌, list_eq, nat_eq, Bool, true, false, List, [], ◌∷◌, sym, ap, arith,
  ◌⊎◌, inl, inr, Bool-cases,
}
use anna.Containers.HashSet
use anna.Text.{Text}
use anna.Messages.{Net}
use anna.Metadata.{all_tiers, ReplicationFactor}
use anna.Run.{ok, Ensures, returns, Ensures-eq, Ensures-ok, Ensures-bind}
use anna.Threads.{ServerThread, id}
use anna.Ring.Walk.{has}
use anna.Kvs.{Config, Server}
use anna.Kvs.Redistribute.{add_key_to, gossip_addresses, Found, threads_for}
use anna.Kvs.Redistribute.Covers.{
  IsSent, Grows, add_key_to-Grows, add_key_to-IsSent, threads_for-Extends,
}
use anna.Route.{set_all_replications}
use anna.Kvs.ReplicationChange.Factors.{lower-set_replication}
use anna.Kvs.ReplicationChange.{
  Change, new_threads, is_first, give_up_unless, pass_on_if, compare_threads, change_stored,
}
use anna.Kvs.ReplicationChange.GivenUp.{Updates, IsGivenUp, Hands, IsGivenUp-map, Hands-server}

module _ {T : Type 0} (config : Config) where
  module _ (update : ReplicationFactor) (c : Change T) (s : Server T)
      (u : Updates config (update ∷ []) c.server s) where
    give_up-Hands :
        (threads : List ServerThread) (net net' : Net)
        → threads_for config all_tiers update.key (record c.server {
          key_replication_map = set_all_replications (update ∷ []) c.server.key_replication_map;
          net = net;
        })
          ≡ ok ((threads, true), net')
        → Hands config (update ∷ []) c (
            give_up_unless config
              (has id config.wt threads)
              update.key
              threads
              (record c { server = s }))
    give_up-Hands threads net net' looked = elim (Bool-cases (has id config.wt threads)) [
      | inl here ↦ rw here (Hands-server config (update ∷ []) c s u)
      | inr gone ↦ rw gone (record {
        server = u;
        grows = add_key_to-Grows update.key (gossip_addresses threads) c.addr_keyset_map;
        removed = λ k h. new_or_old k gone (elim (Bool-cases (update.key == k)) [
          | inl same ↦ inl same
          | inr other ↦ inr (ground (arith, HashSet.contains-insert update.key k c.remove_set))
        ]);
      })
    ]
      where
        new_or_old :
            (k : Text)
            → has id config.wt threads ≡ false
            → ((update.key == k) ≡ true) ⊎ (HashSet.contains k c.remove_set ≡ true)
            → (HashSet.contains k c.remove_set ≡ true)
              ⊎ IsGivenUp config
                  (update ∷ [])
                  c.server
                  (IsSent (add_key_to update.key (gossip_addresses threads) c.addr_keyset_map) k)
                  k
        new_or_old k gone (inr old) = inl old
        new_or_old k gone (inl same) = rw (← (==_iff update.key k).0 same) (
            inr (record {
              before = [];
              update = update;
              later = [];
              split = refl;
              of_key = refl;
              net = net;
              threads = threads;
              net_after = net';
              looked_up = looked;
              not_here = gone;
              sent = add_key_to-IsSent update.key (gossip_addresses threads) c.addr_keyset_map;
            }))

    pass_on-Hands :
        (first : Bool) (orig threads : List ServerThread) (c' : Change T)
        → Hands config (update ∷ []) c c'
        → Hands config (update ∷ []) c (pass_on_if config first update.key orig threads c')
    pass_on-Hands true orig threads c' h =
        let g : Grows c'.addr_keyset_map (
            add_key_to update.key (gossip_addresses (new_threads orig threads))
              c'.addr_keyset_map) =
          add_key_to-Grows update.key (gossip_addresses (new_threads orig threads))
            c'.addr_keyset_map in
        record {
          server = h.server;
          grows = λ k a i. g k a (h.grows k a i);
          removed = λ k i. elim (h.removed k i) [
            | inl before ↦ inl before
            | inr given ↦ inr (IsGivenUp-map config (update ∷ []) c.server _ _ k (g k) given)
          ];
        }
    pass_on-Hands false orig threads c' h = h

    pub compare_threads-Hands :
        (decrement : Bool) (orig : List ServerThread) (found : Found) (net : Net)
        → threads_for config all_tiers update.key (record c.server {
          key_replication_map = set_all_replications (update ∷ []) c.server.key_replication_map;
          net = net;
        })
          ≡ ok found
        → Ensures
            (Hands config (update ∷ []) c)
            (compare_threads config update.key decrement orig found.0 (record c { server = s }))
    unfolding compare_threads
    compare_threads-Hands decrement orig ((threads, false), net') net looked =
        returns (Hands-server config (update ∷ []) c s u)
    compare_threads-Hands decrement orig ((threads, true), net') net looked =
        Ensures-bind (λ _. Unit) (is_first decrement orig config.wt) _ (Ensures-eq _ (λ _ _. tt))
          (λ first _.
            returns (pass_on-Hands first orig threads _ (give_up-Hands threads net net' looked)))

  pub change_stored-Hands :
      (update : ReplicationFactor) (orig : List ServerThread) (c : Change T)
      → Ensures (Hands config (update ∷ []) c) (change_stored config update.key update orig c)
  unfolding change_stored set_all_replications
  change_stored-Hands update orig c =
      let e = lower-set_replication update.key update c.server.key_replication_map in
      Ensures-bind (λ found. threads_for config all_tiers update.key _ ≡ ok found)
        (threads_for config all_tiers update.key _) _ (Ensures-eq _ (λ found e. e))
        (λ found looked.
          compare_threads-Hands update c _
            (record {
              same = ap (λ m. record c.server { key_replication_map = m; net = found.1 }) e;
              extends = Ensures-ok _ (threads_for-Extends config all_tiers update.key _) looked;
            })
            _ orig found c.server.net
            (ap
                (λ m.
                  threads_for config all_tiers update.key
                    (record c.server { key_replication_map = m }))
                (sym e)
              ∙ looked))
