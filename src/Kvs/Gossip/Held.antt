-- ===== src/Kvs/Gossip/Held.antt =====
-- The messages that send_gossip fills: what they hold, and what goes out.
use anna.Prelude.{
  ◌==◌, ==_iff, ==_refl, ◌≡◌, refl, sym, ◌∙◌, list_eq, nat_eq, true, false, List, [], ◌∷◌, ◌++◌,
  arith, Bool-cases, inl, inr,
}
use anna.Containers.HashMap
use anna.Containers.HashMap.{HashMap}
use anna.Text.{Text}
use anna.Messages.{LatticeType, no_error, Message, request, Net, send, prepare_put_tuple}
use anna.Messages.Carried.{has_tuple, carries, has_tuple-append, append_assoc, append_nil}
use anna.Kvs.Gossip.{GossipMap, opened, add_put, send_all}

-- The message to the address has the key with the payload.
abbrev pub Holds : Text → Text → Text → GossipMap → Type 0
Holds address key payload g = has_tuple key payload (opened (HashMap.find address g)).tuples ≡ true

pub opened-Holds :
    (a address key payload : Text) (g : GossipMap)
    → Holds address key payload g
    → Holds address key payload (HashMap.assign a (opened (HashMap.find a g)) g)
opened-Holds a address key payload g h = elim (Bool-cases (a == address)) [
  | inl same ↦
      rw
        (
          HashMap.find-assign a address (opened (HashMap.find a g)) g,
          same,
          (==_iff a address).0 same,
        )
        h
  | inr other ↦ rw (HashMap.find-assign a address (opened (HashMap.find a g)) g, other) h
]

pub put-Holds :
    (a address k : Text) (t : LatticeType) (v key payload : Text) (g : GossipMap)
    → Holds address key payload g
    → Holds address key payload (add_put a k t v g)
unfolding add_put prepare_put_tuple
put-Holds a address k t v key payload g h =
    let r = prepare_put_tuple (opened (HashMap.find a g)) k t v in
    elim (Bool-cases (a == address)) [
      | inl same ↦
          rw
            (
              HashMap.find-assign a address r g,
              same,
              (==_iff a address).0 same,
              has_tuple-append key payload (opened (HashMap.find address g)).tuples,
              h,
            )
            refl
      | inr other ↦ rw (HashMap.find-assign a address r g, other) h
    ]

pub put-Holds_self :
    (address key : Text) (t : LatticeType) (payload : Text) (g : GossipMap)
    → Holds address key payload (add_put address key t payload g)
unfolding add_put prepare_put_tuple has_tuple
put-Holds_self address key t payload g =
    let r = prepare_put_tuple (opened (HashMap.find address g)) key t payload in
    rw (HashMap.find-assign_self address r g) (
      ground (
        arith,
        has_tuple-append key payload (opened (HashMap.find address g)).tuples (
            record {
              key = key;
              lattice_type = t;
              error = no_error;
              payload = payload;
              address_cache_size = 0;
              invalidate = false;
            }
            ∷ []),
        ==_refl key,
        ==_refl payload,
      ))

-- What goes out, in the order of the map.
pub outgoing : GossipMap → List (Text × Message)
outgoing [] = []
outgoing ((a, r) ∷ g) = (a, request r) ∷ outgoing g

pub send_all-sent : (g : GossipMap) (net : Net) → (send_all g net).sent ≡ net.sent ++ outgoing g
unfolding send_all outgoing
send_all-sent [] net = sym (append_nil net.sent)
send_all-sent ((a, r) ∷ g) net =
    send_all-sent g (send a (request r) net)
    ∙ append_assoc net.sent ((a, request r) ∷ []) (outgoing g)

pub outgoing-carries :
    (address key payload : Text) (g : GossipMap)
    → Holds address key payload g
    → carries address key payload (outgoing g) ≡ true
unfolding outgoing carries HashMap.find has_tuple
outgoing-carries address key payload [] h = cc
outgoing-carries address key payload ((a, r) ∷ g) h = elim (Bool-cases (a == address)) [
  | inl same ↦ let k : has_tuple key payload r.tuples ≡ true = rw same at h in rw (same, k) refl
  | inr other ↦
      let k : Holds address key payload g = rw other at h in
      rw (other) (outgoing-carries address key payload g k)
]
