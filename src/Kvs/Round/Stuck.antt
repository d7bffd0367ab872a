-- ===== src/Kvs/Round/Stuck.antt =====
-- Redistribution: an address that has few enough keys is done in one round, and an address that has
-- more is sent the same keys in each round, so that nothing is ever removed.
use anna.Prelude.{
  ℕ, zero, suc, ◌<◌, ◌≡◌, refl, ap, ◌∙◌, list_eq, nat_eq, leb, true, false, some, List, [], ◌∷◌,
  arith, length,
}
use anna.Containers.HashMap
use anna.Containers.HashMap.{HashMap}
use anna.Containers.HashSet
use anna.Text.{Text}
use anna.Run.{Run, ok, ◌>>=◌, Ensures, returns, faults, Ensures-ok, Ensures-if, Ensures-bind}
use anna.Kvs.{Serializers, Config, Server}
use anna.Kvs.Gossip.Keeps.{Keeps, send_gossip-Keeps}
use anna.Kvs.Gossip.{send_gossip}
use anna.Kvs.Round.{is_empty, parts, finished, erase_addresses, after_round, redistribute}
use anna.Kvs.Round.Left.{find-after_round}

is_empty-after_round :
    (m : HashMap Text (List Text)) → is_empty m ≡ true → is_empty (after_round m) ≡ true
unfolding finished erase_addresses
is_empty-after_round [] h = refl
is_empty-after_round (p ∷ m) h = cc

find-is_empty :
    (a : Text) (keys : List Text) (m : HashMap Text (List Text))
    → HashMap.find a m ≡ some keys
    → is_empty m ≡ false
unfolding HashMap.find
find-is_empty a keys [] h = cc
find-is_empty a keys (p ∷ m) h = refl

erase_addresses-Distinct :
    (addresses : List Text) (m : HashMap Text (List Text))
    → HashMap.Distinct m
    → HashMap.Distinct (erase_addresses addresses m)
unfolding erase_addresses
erase_addresses-Distinct [] m d = d
erase_addresses-Distinct (b ∷ addresses) m d =
    erase_addresses-Distinct addresses (HashMap.erase b m) (HashMap.erase-Distinct b m d)

module _ (S : Serializers) (config : Config) where
  -- After a round in which an address is left, the rest of the map is taken up again, and what is to
  -- be removed still is.
  abbrev pub Waits : Server S.Store → Server S.Store → Type 0
  Waits s s' =
      s'
      ≡ record s { join_gossip_map = after_round s.join_gossip_map; store = s'.store; net = s'.net }

  pub redistribute-Waits :
      (s : Server S.Store)
      → is_empty (after_round s.join_gossip_map) ≡ false
      → Ensures (Waits s) (redistribute S config s)
  unfolding redistribute
  redistribute-Waits s left =
      let s1 : Server S.Store = record s { join_gossip_map = after_round s.join_gossip_map } in
      Ensures-if (is_empty s.join_gossip_map) _ _
        (λ none_to_send. absurd (cc (left, is_empty-after_round s.join_gossip_map none_to_send)))
        (λ some_to_send.
          Ensures-bind (Keeps s1) (send_gossip S config (parts s.join_gossip_map []) s1) _
            (send_gossip-Keeps S config (parts s.join_gossip_map []) s1)
            (λ sent h.
              Ensures-if (is_empty sent.join_gossip_map) _ _
                (λ done.
                  let e : sent.join_gossip_map ≡ after_round s.join_gossip_map =
                    ap (λ (r : Server S.Store). r.join_gossip_map) h in
                  absurd (cc (left, done, e)))
                (λ _. returns h)))

  -- The redistribution, as often as the loop of the server comes to it.
  unfoldable pub rounds : ℕ → Server S.Store → Run (Server S.Store)
  rounds zero s = ok s
  rounds (suc n) s = redistribute S config s >>= rounds n

  -- The keys of an address, with what stays of the server as long as they are there.
  pub record IsStuck (address : Text) (keys : List Text) (s s' : Server S.Store) : Type 0 where
    pub distinct : HashMap.Distinct s'.join_gossip_map
    pub still : HashMap.find address s'.join_gossip_map ≡ some keys
    pub to_remove : s'.join_remove_set ≡ s.join_remove_set
    pub stored : s'.stored_key_map ≡ s.stored_key_map

  IsStuck-trans :
      (address : Text) (keys : List Text) (s s' : Server S.Store) {m : Run (Server S.Store)}
      → IsStuck address keys s s'
      → Ensures (IsStuck address keys s') m
      → Ensures (IsStuck address keys s) m
  IsStuck-trans address keys s s' h (returns k) = returns (record {
    distinct = k.distinct;
    still = k.still;
    to_remove = k.to_remove ∙ h.to_remove;
    stored = k.stored ∙ h.stored;
  })
  IsStuck-trans address keys s s' h faults = faults

  module _ (address : Text) (keys : List Text) (u : HashSet.Distinct keys)
      (over : 50 < length keys) where
    still_there :
        (m : HashMap Text (List Text))
        → HashMap.Distinct m
        → HashMap.find address m ≡ some keys
        → HashMap.find address (after_round m) ≡ some keys
    still_there m d h =
        find-after_round address keys m d h u ∙ (rw (not_leb (length keys) over) refl)
      where
        not_leb : (n : ℕ) → 50 < n → leb n 50 ≡ false
        not_leb n h = ground arith

    rounds-IsStuck :
        (n : ℕ) (s : Server S.Store)
        → HashMap.Distinct s.join_gossip_map
        → HashMap.find address s.join_gossip_map ≡ some keys
        → Ensures (IsStuck address keys s) (rounds n s)
    unfolding rounds
    rounds-IsStuck zero s d h =
        returns (record { distinct = d; still = h; to_remove = refl; stored = refl })
    rounds-IsStuck (suc n) s d h =
        let there = still_there s.join_gossip_map d h in
        let d' = erase_addresses-Distinct (finished s.join_gossip_map) s.join_gossip_map d in
        Ensures-bind (Waits s) (redistribute S config s) _
          (redistribute-Waits s (find-is_empty address keys _ there))
          (λ s' w.
            let m : s'.join_gossip_map ≡ after_round s.join_gossip_map =
              ap (λ (r : Server S.Store). r.join_gossip_map) w in
            let e : HashMap.find address s'.join_gossip_map ≡ some keys = rw m there in
            let e' : HashMap.Distinct s'.join_gossip_map = rw m d' in
            IsStuck-trans address keys s s'
              (record {
                distinct = e';
                still = e;
                to_remove = ap (λ (r : Server S.Store). r.join_remove_set) w;
                stored = ap (λ (r : Server S.Store). r.stored_key_map) w;
              })
              (rounds-IsStuck n s' e' e))

  -- For any number of rounds of the redistribution that return: an address of join_gossip_map that has
  -- more than fifty keys keeps all of them, and neither join_remove_set nor the stored keys change.
  -- The keys of a map and the elements of a set stand once.
  pub redistribute-IsStuck :
      (n : ℕ) (address : Text) (keys : List Text) (s s' : Server S.Store)
      → HashMap.Distinct s.join_gossip_map
      → HashMap.find address s.join_gossip_map ≡ some keys
      → HashSet.Distinct keys
      → 50 < length keys
      → rounds n s ≡ ok s'
      → IsStuck address keys s s'
  redistribute-IsStuck n address keys s s' d h u over =
      Ensures-ok (rounds n s) (rounds-IsStuck address keys u over n s d h)
