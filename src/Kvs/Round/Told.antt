-- ===== src/Kvs/Round/Told.antt =====
-- The periodic gossip tells of each change every other thread that holds the key, and every cache.
use anna.Prelude.{
  ◌≡◌, ap, sym, ◌∙◌, list_eq, nat_eq, Bool, true, false, List, [], ◌∷◌, ◌++◌, map, ◌⊎◌, inl, inr,
  All, All-mono, Bool-cases,
}
use anna.Containers.HashMap
use anna.Containers.HashMap.{HashMap}
use anna.Text.{Text}
use anna.Messages.{Net}
use anna.Messages.Carried.{Extends}
use anna.Metadata.{all_tiers}
use anna.Run.{ok, ◌>>=◌, Ensures, returns, Ensures-if, Ensures-ok, Ensures-eq, Ensures-bind}
use anna.Threads.{ServerThread, same_thread, gossip_connect_address, cache_update_connect_address}
use anna.Kvs.{Serializers, Config, Server}
use anna.Kvs.Gossip.Keeps.{Keeps, send_gossip-Keeps}
use anna.Kvs.Gossip.{send_gossip}
use anna.Kvs.Gossip.Passes.{PassedOn, Extends-WentOut, send_gossip-PassedOn, value_of}
use anna.Kvs.Redistribute.{AddressKeysetMap, Found, threads_for, spread_keys}
use anna.Kvs.Redistribute.Covers.{IsSent, Covers, spread_keys-Covers}
use anna.Kvs.Round.{is_empty, others, interested, gossip_round}

-- `At address` holds of the gossip address of every thread but this one, if they are known.
abbrev pub OthersTold : (Text → Type 0) → ServerThread → List ServerThread × Bool → Type 0
OthersTold At wt (threads, false) = Unit
OthersTold At wt (threads, true) =
    All (λ thread. (same_thread thread wt ≡ true) ⊎ At (gossip_connect_address thread)) threads

-- And of the address of every cache.
abbrev pub CachesTold : (Text → Type 0) → List Text → Type 0
CachesTold At caches = All (λ ip. At (cache_update_connect_address ip 0)) caches

others-told :
    (At : Text → Type 0) (wt : ServerThread) (threads : List ServerThread) (more : List Text)
    → All At (others wt threads ++ more)
    → OthersTold At wt (threads, true) × All At more
unfolding others
others-told At wt [] more h = (tt, h)
others-told At wt (thread ∷ threads) more h = elim (Bool-cases (same_thread thread wt)) [
  | inl same ↦ let (a, b) = others-told At wt threads more (rw same at h) in ((inl same, a), b)
  | inr other ↦
      let g : All At (gossip_connect_address thread ∷ (others wt threads ++ more)) =
        rw other at h in
      let (a, b) = others-told At wt threads more g.1 in ((inr g.0, a), b)
]

caches-told :
    (At : Text → Type 0) (caches : List Text)
    → All At (map (λ ip. cache_update_connect_address ip 0) caches)
    → CachesTold At caches
caches-told At [] h = tt
caches-told At (ip ∷ caches) h = (h.0, caches-told At caches h.1)

interested-told :
    (At : Text → Type 0) (wt : ServerThread) (caches : HashMap Text (List Text)) (key : Text)
    (found : List ServerThread × Bool)
    → All At (interested wt caches key found)
    → OthersTold At wt found × CachesTold At (HashMap.at [] key caches)
unfolding interested
interested-told At wt caches key (threads, false) h = (tt, caches-told At _ h)
interested-told At wt caches key (threads, true) h =
    let (a, b) = others-told At wt threads _ h in (a, caches-told At _ b)

module _ (S : Serializers) (config : Config) where
  -- The threads of the key were looked up, and what can be read of it went out to the addresses of all
  -- that are to hear of it.
  pub record IsTold (s s' : Server S.Store) (key : Text) : Type 0 where
    pub net : Net
    pub found : Found
    pub looked_up : threads_for config all_tiers key (record s { net = net }) ≡ ok found
    pub others : OthersTold (PassedOn S s s' key) config.wt found.0
    pub caches : CachesTold (PassedOn S s s' key) (HashMap.at [] key s.key_to_cache_ips)

  pub record IsPublished (s s' : Server S.Store) : Type 0 where
    pub told : All (IsTold s s') s.local_changeset
    pub same : s' ≡ record s { local_changeset = []; store = s'.store; net = s'.net }

  -- What is in the map goes out, also if it is only sent from a later state of the sockets.
  went_out :
      (s sent : Server S.Store) (net : Net) (m : AddressKeysetMap) (key address : Text)
      → Extends s.net net
      → send_gossip S config m (record s { net = net }) ≡ ok sent
      → IsSent m key address
      → PassedOn S s sent key address
  unfolding value_of
  went_out s sent net m key address e went i =
      Extends-WentOut (value_of S s key) s.net net sent.net key address e
        (send_gossip-PassedOn S config m (record s { net = net }) sent key address went i)

  published :
      (s : Server S.Store) (q : Server S.Store × AddressKeysetMap)
      → Covers config all_tiers
          (interested config.wt s.key_to_cache_ips)
          s.local_changeset
          (s, [])
          q
      → Ensures
          (IsPublished s)
          (do sent ← send_gossip S config q.1 q.0; ok (record sent { local_changeset = [] }))
  unfolding value_of
  published s q c =
      let same : q.0 ≡ record s { net = q.0.net } = c.same q.0.net in
      Ensures-bind (λ sent. (send_gossip S config q.1 q.0 ≡ ok sent) × Keeps q.0 sent)
        (send_gossip S config q.1 q.0) _
        (Ensures-eq _ (λ sent e. (e, Ensures-ok _ (send_gossip-Keeps S config q.1 q.0) e)))
        (λ sent (e, h).
          let went : send_gossip S config q.1 (record s { net = q.0.net }) ≡ ok sent =
            ap (λ (r : Server S.Store). send_gossip S config q.1 r) (sym same) ∙ e in
          returns (record {
            told =
                All-mono _ _ _
                  (λ key k.
                    let (a, b) =
                      interested-told (PassedOn S s sent key) config.wt s.key_to_cache_ips key
                        k.found.0
                        (All-mono _ _ _
                          (λ address i. went_out s sent q.0.net q.1 key address c.extends went i)
                          k.sent) in
                    record {
                      net = k.net;
                      found = k.found;
                      looked_up = k.looked_up;
                      others = a;
                      caches = b;
                    })
                  c.covered;
            same =
                ap (λ (r : Server S.Store). record r { local_changeset = [] })
                  (h
                    ∙ ap (λ (r : Server S.Store). record r { store = sent.store; net = sent.net })
                        same);
          }))

  -- A gossip round that returns, and that had changes, leaves no change behind and nothing else of the
  -- server but the stores and the sockets different; and for each changed key that is stored and can
  -- be read, a message with it and its value went out to every other thread that is responsible for
  -- it, if these could be looked up, and to every cache that holds it.
  pub gossip_round-IsPublished :
      (s s' : Server S.Store)
      → is_empty s.local_changeset ≡ false
      → gossip_round S config s ≡ ok s'
      → IsPublished s s'
  unfolding gossip_round
  gossip_round-IsPublished s s' changes = Ensures-ok {P = IsPublished s} _ (
      Ensures-if (is_empty s.local_changeset) _ _ (λ h. absurd (cc (h, changes)))
        (λ _.
          Ensures-bind
            (Covers config all_tiers (interested config.wt s.key_to_cache_ips) s.local_changeset
              (s, []))
            (spread_keys config all_tiers (interested config.wt s.key_to_cache_ips)
              s.local_changeset (s, []))
            _
            (spread_keys-Covers config all_tiers (interested config.wt s.key_to_cache_ips)
              s.local_changeset (s, []))
            (λ q c. published s q c)))
