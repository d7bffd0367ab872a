-- ===== src/Ring/Responsible/Asks.antt =====
-- A look-up of threads sends at most a request for a replication factor, and takes no message back.
use anna.Prelude.{
  refl, Bool, true, false, Option, none, some, List, [], list_eq, nat_eq, length, ◌%◌,
}
use anna.Containers.HashMap
use anna.Containers.HashMap.{HashMap}
use anna.Text.{Text}
use anna.Messages.{Net}
use anna.Messages.Carried.{Extends, Extends-refl}
use anna.Metadata.{Tier, tier_eq, memory, KeyReplication, get_metadata_key}
use anna.Run.{ok, ◌>>=◌, Ensures, returns, Ensures-eq, Ensures-bind}
use anna.Threads.{ServerThread}
use anna.Ring.HashRing
use anna.Ring.HashRing.{HashRing}
use anna.Ring.Responsible.{
  Library, GlobalRingMap, get_responsible_threads, get_responsible_threads_metadata,
  issue_replication_factor_request, pick, all_tier_threads,
}

module _ (lib : Library) (response_address key : Text) where
  pub issue-Extends :
      (global_ring local_ring : HashRing) (net : Net)
      → Ensures
          (Extends net)
          (issue_replication_factor_request lib response_address key global_ring local_ring net)
  unfolding issue_replication_factor_request
  issue-Extends global_ring local_ring net =
      Ensures-bind (λ _. Unit)
        (get_responsible_threads_metadata lib (get_metadata_key key) global_ring local_ring) _
        (Ensures-eq _ (λ _ _. tt))
        (λ threads _.
          Ensures-bind (λ _. Unit) (pick lib ((lib.rand_r net.seed).0 % length threads) threads) _
            (Ensures-eq _ (λ _ _. tt)) (λ target _. returns (record { more = _; sent = refl })))

  pub get_responsible_threads-Extends :
      (metadata : Bool) (global_rings local_rings : GlobalRingMap)
      (replication : HashMap Text KeyReplication) (tiers : List Tier) (net : Net)
      → Ensures
          (λ found. Extends net found.1)
          (get_responsible_threads lib response_address key metadata global_rings local_rings
            replication tiers net)
  unfolding get_responsible_threads
  get_responsible_threads-Extends true global_rings local_rings replication tiers net =
      Ensures-bind (λ _. Unit)
        (get_responsible_threads_metadata lib key (HashMap.at HashRing.empty memory global_rings)
          (HashMap.at HashRing.empty memory local_rings))
        _ (Ensures-eq _ (λ _ _. tt)) (λ threads _. returns (Extends-refl net))
  get_responsible_threads-Extends false global_rings local_rings replication tiers net =
      go (HashMap.find key replication)
    where
      go :
          (o : Option KeyReplication)
          → Ensures
              (λ (found : (List ServerThread × Bool) × Net). Extends net found.1)
              (elim o [
                | none ↦ (do
                  net' ←
                      issue_replication_factor_request lib response_address key
                        (HashMap.at HashRing.empty memory global_rings)
                        (HashMap.at HashRing.empty memory local_rings)
                        net
                  ok (([], false), net'))
                | some rep ↦ (do
                  threads ← all_tier_threads lib key rep global_rings local_rings tiers
                  ok ((threads, true), net))
              ])
      go none =
          Ensures-bind (Extends net) _ _
            (issue-Extends (HashMap.at HashRing.empty memory global_rings)
              (HashMap.at HashRing.empty memory local_rings) net)
            (λ net' h. returns h)
      go (some rep) =
          Ensures-bind (λ _. Unit) (all_tier_threads lib key rep global_rings local_rings tiers) _
            (Ensures-eq _ (λ _ _. tt)) (λ threads _. returns (Extends-refl net))
