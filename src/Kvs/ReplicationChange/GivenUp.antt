-- ===== src/Kvs/ReplicationChange/GivenUp.antt =====
-- What the loop over the updates of replication factors does to the server, to the map of what is to
-- be sent and to the keys that are to be removed.
use anna.Prelude.{
  ◌≡◌, refl, ◌∙◌, list_eq, nat_eq, true, false, List, [], ◌∷◌, ◌++◌, sym, ap, ◌⊎◌, inl, inr, All,
  All-mono,
}
use anna.Containers.HashSet
use anna.Text.{Text}
use anna.Messages.{Net}
use anna.Messages.Carried.{append_assoc, Extends, Extends-trans}
use anna.Metadata.{all_tiers, ReplicationFactor}
use anna.Run.{Run, ok, Ensures, returns, faults}
use anna.Threads.{ServerThread, id}
use anna.Ring.Walk.{has}
use anna.Kvs.{Config, Server}
use anna.Kvs.Redistribute.{gossip_addresses, threads_for}
use anna.Kvs.Redistribute.Covers.{IsSent, Grows}
use anna.Route.{set_all_replications}
use anna.Kvs.ReplicationChange.Factors.{set_all-append}
use anna.Kvs.ReplicationChange.{Change}

module _ {T : Type 0} (config : Config) where
  -- The updates were made, and of the rest only the sockets differ.
  pub record Updates (done : List ReplicationFactor) (s s' : Server T) : Type 0 where
    pub same : s' ≡ record s {
      key_replication_map = set_all_replications done s.key_replication_map;
      net = s'.net;
    }
    pub extends : Extends s.net s'.net

  -- At an update of the key, the threads that are responsible for it with this update and those before
  -- it were looked up; this thread is not among them, and `At` holds of the address of each.
  pub record IsGivenUp (updates : List ReplicationFactor) (s : Server T) (At : Text → Type 0)
      (key : Text) : Type 0 where
    pub before : List ReplicationFactor
    pub update : ReplicationFactor
    pub later : List ReplicationFactor
    pub split : updates ≡ before ++ update ∷ later
    pub of_key : update.key ≡ key
    pub net : Net
    pub threads : List ServerThread
    pub net_after : Net
    pub looked_up :
        threads_for config all_tiers key (record s {
          key_replication_map = set_all_replications (before ++ update ∷ []) s.key_replication_map;
          net = net;
        })
        ≡ ok ((threads, true), net_after)
    pub not_here : has id config.wt threads ≡ false
    pub sent : All At (gossip_addresses threads)

  pub record Hands (done : List ReplicationFactor) (c c' : Change T) : Type 0 where
    pub server : Updates done c.server c'.server
    pub grows : Grows c.addr_keyset_map c'.addr_keyset_map
    pub removed :
        (k : Text)
        → HashSet.contains k c'.remove_set ≡ true
        → (HashSet.contains k c.remove_set ≡ true)
          ⊎ IsGivenUp done c.server (IsSent c'.addr_keyset_map k) k

  pub IsGivenUp-mono :
      (done more : List ReplicationFactor) (s : Server T) (At At' : Text → Type 0) (k : Text)
      → ((a : Text) → At a → At' a)
      → IsGivenUp done s At k
      → IsGivenUp (done ++ more) s At' k
  IsGivenUp-mono done more s At At' k f g = record {
    before = g.before;
    update = g.update;
    later = g.later ++ more;
    split = ap (λ l. l ++ more) g.split ∙ append_assoc g.before (g.update ∷ g.later) more;
    of_key = g.of_key;
    net = g.net;
    threads = g.threads;
    net_after = g.net_after;
    looked_up = g.looked_up;
    not_here = g.not_here;
    sent = All-mono _ _ _ f g.sent;
  }

  pub IsGivenUp-map :
      (done : List ReplicationFactor) (s : Server T) (At At' : Text → Type 0) (k : Text)
      → ((a : Text) → At a → At' a)
      → IsGivenUp done s At k
      → IsGivenUp done s At' k
  IsGivenUp-map done s At At' k f g = record {
    before = g.before;
    update = g.update;
    later = g.later;
    split = g.split;
    of_key = g.of_key;
    net = g.net;
    threads = g.threads;
    net_after = g.net_after;
    looked_up = g.looked_up;
    not_here = g.not_here;
    sent = All-mono _ _ _ f g.sent;
  }

  pub IsGivenUp-later :
      (done more : List ReplicationFactor) (s s' : Server T) (At : Text → Type 0) (k : Text)
      → Updates done s s'
      → IsGivenUp more s' At k
      → IsGivenUp (done ++ more) s At k
  IsGivenUp-later done more s s' At k u g = record {
    before = done ++ g.before;
    update = g.update;
    later = g.later;
    split = ap (λ l. done ++ l) g.split ∙ sym (append_assoc done g.before (g.update ∷ g.later));
    of_key = g.of_key;
    net = g.net;
    threads = g.threads;
    net_after = g.net_after;
    looked_up =
        ap (λ m. threads_for config all_tiers k (record s { key_replication_map = m; net = g.net }))
          (ap (λ l. set_all_replications l s.key_replication_map)
              (append_assoc done g.before (g.update ∷ []))
            ∙ set_all-append done (g.before ++ g.update ∷ []) s.key_replication_map)
        ∙ sym (
            ap
              (λ (r : Server T). threads_for config all_tiers k (record r {
                key_replication_map =
                    set_all_replications (g.before ++ g.update ∷ []) r.key_replication_map;
                net = g.net;
              }))
              u.same)
        ∙ g.looked_up;
    not_here = g.not_here;
    sent = g.sent;
  }

  pub Updates-trans :
      (d d' : List ReplicationFactor) (s s' s'' : Server T)
      → Updates d s s'
      → Updates d' s' s''
      → Updates (d ++ d') s s''
  Updates-trans d d' s s' s'' a b = record {
    same =
        b.same
        ∙ ap
            (λ (r : Server T). record r {
              key_replication_map = set_all_replications d' r.key_replication_map;
              net = s''.net;
            })
            a.same
        ∙ ap (λ m. record s { key_replication_map = m; net = s''.net })
            (sym (set_all-append d d' s.key_replication_map));
    extends = Extends-trans s.net s'.net s''.net a.extends b.extends;
  }

  pub Hands-server :
      (done : List ReplicationFactor) (c : Change T) (s : Server T)
      → Updates done c.server s
      → Hands done c (record c { server = s })
  Hands-server done c s u = record { server = u; grows = λ k a h. h; removed = λ k h. inl h }

  pub Hands-trans :
      (d d' : List ReplicationFactor) (c c' c'' : Change T)
      → Hands d c c'
      → Hands d' c' c''
      → Hands (d ++ d') c c''
  Hands-trans d d' c c' c'' a b = record {
    server = Updates-trans d d' _ _ _ a.server b.server;
    grows = λ k at h. b.grows k at (a.grows k at h);
    removed = λ k h. elim (b.removed k h) [
      | inl before ↦ elim (a.removed k before) [
        | inl first ↦ inl first
        | inr given ↦ inr (IsGivenUp-mono d d' c.server _ _ k (b.grows k) given)
      ]
      | inr given ↦ inr (IsGivenUp-later d d' c.server c'.server _ k a.server given)
    ];
  }

  -- The net of a server is put elsewhere.
  pub Updates-net :
      (s : Server T) (net : Net) → Extends s.net net → Updates [] s (record s { net = net })
  unfolding set_all_replications
  Updates-net s net e = record { same = refl; extends = e }

  pub onward :
      (d d' : List ReplicationFactor) (c c' : Change T) {m : Run (Change T)}
      → Hands d c c'
      → Ensures (Hands d' c') m
      → Ensures (Hands (d ++ d') c) m
  onward d d' c c' h (returns k) = returns (Hands-trans d d' c c' _ h k)
  onward d d' c c' h faults = faults
