-- ===== src/Kvs/Gossip/Keeps.antt =====
-- send_gossip only reads: of the server it changes no more than the stores, in which a read may open
-- an entry, and what is sent.
use anna.Prelude.{◌≡◌, refl, ap, ◌∙◌, list_eq, nat_eq, Option, none, some, List, [], ◌∷◌}
use anna.Containers.HashMap
use anna.Containers.HashMap.{HashMap}
use anna.Text.{Text}
use anna.Run.{Run, Ensures, returns, faults, Ensures-eq, Ensures-bind}
use anna.Kvs.{Serializers, KeyProperty, Config, Server}
use anna.Kvs.Gossip.{GossipProgress, opened, add_key, add_keys, gather, send_all, send_gossip}
use anna.Kvs.Process.{process_get}

-- The second is the first, but for the stores and the sockets.
abbrev pub Keeps : {T : Type 0} → Server T → Server T → Type 0
Keeps s s' = s' ≡ record s { store = s'.store; net = s'.net }

module _ {T : Type 0} where
  pub Keeps-trans : (s s' s'' : Server T) → Keeps s s' → Keeps s' s'' → Keeps s s''
  Keeps-trans s s' s'' a b =
      b ∙ ap (λ (r : Server T). record r { store = s''.store; net = s''.net }) a

module _ (S : Serializers) (config : Config) where
  onward :
      (s s' : Server S.Store) {m : Run (GossipProgress S config)}
      → Keeps s s'
      → Ensures (λ p. Keeps s' p.0) m
      → Ensures (λ p. Keeps s p.0) m
  onward s s' h (returns {a = p} k) = returns (Keeps-trans s s' p.0 h k)
  onward s s' h faults = faults

  add_key-Keeps :
      (address key : Text) (property : Option KeyProperty) (p : GossipProgress S config)
      → Ensures (λ q. Keeps p.0 q.0) (add_key S config address key property p)
  unfolding add_key
  add_key-Keeps address key none p = returns refl
  add_key-Keeps address key (some property) (s, gossip_map) =
      Ensures-bind (λ _. Unit) (process_get S key property.type s.store) _
        (Ensures-eq _ (λ _ _. tt)) (λ read _. returns refl)

  add_keys-Keeps :
      (address : Text) (keys : List Text) (p : GossipProgress S config)
      → Ensures (λ q. Keeps p.0 q.0) (add_keys S config address keys p)
  unfolding add_keys
  add_keys-Keeps address [] p = returns refl
  add_keys-Keeps address (key ∷ keys) (s, gossip_map) =
      Ensures-bind (λ q. Keeps s q.0)
        (add_key S config address key (HashMap.find key s.stored_key_map) (s, gossip_map)) _
        (add_key-Keeps address key (HashMap.find key s.stored_key_map) (s, gossip_map))
        (λ q h. onward s q.0 h (add_keys-Keeps address keys q))

  gather-Keeps :
      (m : HashMap Text (List Text)) (p : GossipProgress S config)
      → Ensures (λ q. Keeps p.0 q.0) (gather S config m p)
  unfolding gather
  gather-Keeps [] p = returns refl
  gather-Keeps ((address, keys) ∷ rest) (s, gossip_map) =
      Ensures-bind (λ q. Keeps s q.0)
        (add_keys S config address keys
          (s, HashMap.assign address (opened (HashMap.find address gossip_map)) gossip_map))
        _
        (add_keys-Keeps address keys
          (s, HashMap.assign address (opened (HashMap.find address gossip_map)) gossip_map))
        (λ q h. onward s q.0 h (gather-Keeps rest q))

  pub send_gossip-Keeps :
      (m : HashMap Text (List Text)) (s : Server S.Store)
      → Ensures (Keeps s) (send_gossip S config m s)
  unfolding send_gossip
  send_gossip-Keeps m s =
      Ensures-bind (λ q. Keeps s q.0) (gather S config m (s, [])) _ (gather-Keeps m (s, []))
        (λ q h. returns (Keeps-trans s q.0 (record q.0 { net = send_all q.1 q.0.net }) h refl))
