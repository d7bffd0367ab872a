-- ===== src/Kvs/Gossip/Passes.antt =====
-- send_gossip, for all of a map: what can be read of the keys that it names goes out.
use anna.Prelude.{◌≡◌, refl, list_eq, nat_eq, Option, none, some, inl, inr, Option-cases}
use anna.Containers.HashMap
use anna.Text.{Text}
use anna.Messages.{AnnaError, no_error, Net}
use anna.Messages.Carried.{Extends, Delivers, Extends-Delivers}
use anna.Run.{ok, Ensures-ok}
use anna.Kvs.{Serializers, KeyProperty, Config, Server}
use anna.Kvs.Gossip.{send_gossip}
use anna.Kvs.Gossip.Sends.{IsReadable, send_gossip-Delivers}
use anna.Kvs.Redistribute.{AddressKeysetMap}
use anna.Kvs.Redistribute.Covers.{IsSent}

abbrev pub without_error : Text × AnnaError → Option Text
without_error (payload, AnnaError.no_error) = some payload
without_error (payload, error) = none

-- From the first state of the sockets to the second, the value, if there is one, went to the address.
abbrev pub WentOut : Option Text → Net → Net → Text → Text → Type 0
WentOut none net net' key address = Unit
WentOut (some payload) net net' key address = Delivers net net' address key payload

pub Extends-WentOut :
    (value : Option Text) (a b c : Net) (key address : Text)
    → Extends a b
    → WentOut value b c key address
    → WentOut value a c key address
Extends-WentOut none a b c key address e h = tt
Extends-WentOut (some payload) a b c key address e h =
    Extends-Delivers a b c address key payload e h

without_error-eq :
    (r : Text × AnnaError) (payload : Text)
    → without_error r ≡ some payload
    → r ≡ (payload, no_error)
without_error-eq (v, AnnaError.no_error) payload h = let e : v ≡ payload = cc in rw e refl
without_error-eq (v, _) payload h = absurd (cc)

module _ (S : Serializers) where
  abbrev value_in : Server S.Store → Text → Option KeyProperty → Option Text
  value_in s key none = none
  value_in s key (some p) = without_error (S.get p.type key s.store).0

  -- The value of a stored key, if it can be read.
  unfoldable pub value_of : Server S.Store → Text → Option Text
  value_of s key = value_in s key (HashMap.find key s.stored_key_map)

  value_of-IsReadable :
      (s : Server S.Store) (key payload : Text)
      → value_of s key ≡ some payload
      → IsReadable S key payload s
  unfolding value_of
  value_of-IsReadable s key payload h = elim (Option-cases (HashMap.find key s.stored_key_map)) [
    | inl missing ↦ let k : none ≡ some payload = rw missing at h in absurd (cc k)
    | inr (p, there) ↦
        let k : without_error (S.get p.type key s.store).0 ≡ some payload = rw there at h in
        record {
          property = p;
          stored = there;
          read = without_error-eq (S.get p.type key s.store).0 payload k;
        }
  ]

  -- What could be read of the key before went out to the address.
  abbrev pub PassedOn : Server S.Store → Server S.Store → Text → Text → Type 0
  PassedOn s s' key address = WentOut (value_of s key) s.net s'.net key address

  pub send_gossip-PassedOn :
      (config : Config) (m : AddressKeysetMap) (s s' : Server S.Store) (key address : Text)
      → send_gossip S config m s ≡ ok s'
      → IsSent m key address
      → PassedOn s s' key address
  send_gossip-PassedOn config m s s' key address e i = go (value_of s key) refl
    where
      go : (v : Option Text) → value_of s key ≡ v → WentOut v s.net s'.net key address
      go none h = tt
      go (some payload) h =
          Ensures-ok {P = λ r. Delivers s.net r.net address key payload} _
            (send_gossip-Delivers S config address key payload m s i
              (value_of-IsReadable s key payload h))
            e
