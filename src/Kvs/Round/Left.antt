-- ===== src/Kvs/Round/Left.antt =====
-- What one redistribution leaves of join_gossip_map: of each address the keys as they were, or nothing.
use anna.Prelude.{
  ℕ, zero, suc, ◌+◌, ◌-◌, ◌<◌, ◌==◌, ==_refl, ==_iff, ◌≡◌, refl, ap, sym, ◌∙◌, inl, inr, list_eq,
  nat_eq, leb, Bool, true, false, ◌&&◌, ◌||◌, none, some, List, [], ◌∷◌, ◌++◌, arith, length,
  length-append, take, All, Bool-cases, if◌then◌else◌,
}
use anna.Containers.HashMap
use anna.Containers.HashMap.{HashMap}
use anna.Containers.HashSet
use anna.Text.{Text}
use anna.Kvs.Round.{is_empty, take_keys, erase_keys, finished, erase_addresses, after_round}

-- The keys that are not yet in the set.
abbrev pub Fresh : List Text → List Text → Type 0
Fresh sent keys = All (λ k. HashSet.contains k sent ≡ false) keys

Fresh-append :
    (key : Text) (sent keys : List Text)
    → HashSet.contains key keys ≡ false
    → Fresh sent keys
    → Fresh (sent ++ key ∷ []) keys
unfolding HashSet.contains
Fresh-append key sent [] h f = tt
Fresh-append key sent (k ∷ keys) h f = (
  ground (arith, HashSet.contains-append k sent (key ∷ []), ==_iff key k, ==_iff k key),
  Fresh-append key sent keys (ground arith) f.1,
)

append_assoc : (xs : List Text) (y : Text) (zs : List Text) → (xs ++ y ∷ []) ++ zs ≡ xs ++ y ∷ zs
append_assoc [] y zs = refl
append_assoc (x ∷ xs) y zs = ap (λ t. x ∷ t) (append_assoc xs y zs)

append_nil : (xs : List Text) → xs ++ [] ≡ xs
append_nil [] = refl
append_nil (x ∷ xs) = ap (λ t. x ∷ t) (append_nil xs)

reached : (m : ℕ) → m ≡ 50 → leb 50 m ≡ true
reached m h = ground arith

room_left : (m : ℕ) → m < 50 → leb 50 m ≡ false
room_left m h = ground arith

-- As long as there is room for `suc n` keys, that many are taken.
pub take_keys-room :
    (n : ℕ) (sent keys : List Text)
    → length sent + suc n ≡ 50
    → HashSet.Distinct keys
    → Fresh sent keys
    → take_keys keys sent ≡ sent ++ take (suc n) keys
unfolding take_keys HashSet.insert
take_keys-room n sent [] room d f = sym (append_nil sent)
take_keys-room zero sent (key ∷ keys) room d f =
    rw (f.0, reached (length (sent ++ key ∷ [])) (omega (arith, length-append sent (key ∷ []))))
      refl
take_keys-room (suc n) sent (key ∷ keys) room d f =
    rw (f.0, room_left (length (sent ++ key ∷ [])) (omega (arith, length-append sent (key ∷ []))))
      (take_keys-room n (sent ++ key ∷ []) keys (omega (arith, length-append sent (key ∷ []))) d.1
          (Fresh-append key sent keys d.0 f.1)
        ∙ append_assoc sent key (take (suc n) keys))

pub Fresh-none : (keys : List Text) → Fresh [] keys
unfolding HashSet.contains
Fresh-none [] = tt
Fresh-none (k ∷ keys) = (refl, Fresh-none keys)

length-erase_keys :
    (n : ℕ) (keys : List Text) → length (erase_keys (take n keys) keys) ≡ length keys - n
unfolding erase_keys HashSet.erase
length-erase_keys zero keys = omega arith
length-erase_keys (suc n) [] = omega arith
length-erase_keys (suc n) (key ∷ keys) =
    rw (erase_keys, HashSet.erase, ==_refl key) (omega (arith, length-erase_keys n keys))

is_empty_iff : (keys : List Text) → is_empty keys ≡ leb (length keys) 0
is_empty_iff [] = refl
is_empty_iff (k ∷ keys) = ground arith

-- The copy of the set is empty in the end exactly when the set is not over the threshold.
pub is_empty-left :
    (keys : List Text)
    → HashSet.Distinct keys
    → is_empty (erase_keys (take_keys keys []) keys) ≡ leb (length keys) 50
is_empty-left keys d =
    rw (take_keys-room 49 [] keys refl d (Fresh-none keys))
      (is_empty_iff (erase_keys (take 50 keys) keys) ∙ ground (arith, length-erase_keys 50 keys))

find-erase_addresses :
    (a : Text) (addresses : List Text) (m : HashMap Text (List Text))
    → HashMap.Distinct m
    → HashMap.find a (erase_addresses addresses m)
      ≡ (if HashSet.contains a addresses then none else HashMap.find a m)
unfolding erase_addresses HashSet.contains
find-erase_addresses a [] m d = refl
find-erase_addresses a (b ∷ addresses) m d = ground (
  arith,
  find-erase_addresses a addresses (HashMap.erase b m) (HashMap.erase-Distinct b m d),
  HashMap.find-erase b a m d,
)

contains-if :
    (a b : Text) (t : Bool) (s : List Text)
    → HashSet.contains a (if t then b ∷ s else s) ≡ ((t && b == a) || HashSet.contains a s)
unfolding HashSet.contains
contains-if a b true s = refl
contains-if a b false s = refl

and_true : (t : Bool) → ((t && true) || false) ≡ t
and_true t = ground arith

and_false : (t u : Bool) → ((t && false) || u) ≡ u
and_false t u = ground arith

contains-finished_none :
    (a : Text) (m : HashMap Text (List Text))
    → HashMap.contains a m ≡ false
    → HashSet.contains a (finished m) ≡ false
unfolding finished HashMap.find HashSet.contains
contains-finished_none a [] h = refl
contains-finished_none a ((b, keys) ∷ m) h = ground (
  arith,
  contains-if a b (is_empty (erase_keys (take_keys keys []) keys)) (finished m),
  contains-finished_none a m,
)

contains-finished :
    (a : Text) (keys : List Text) (m : HashMap Text (List Text))
    → HashMap.Distinct m
    → HashMap.find a m ≡ some keys
    → HashSet.contains a (finished m) ≡ is_empty (erase_keys (take_keys keys []) keys)
unfolding finished HashMap.find HashSet.contains
contains-finished a keys [] d h = cc
contains-finished a keys ((b, ks) ∷ m) d h =
    contains-if a b (is_empty (erase_keys (take_keys ks []) ks)) (finished m)
    ∙ elim (Bool-cases (b == a)) [
      | inl same ↦
          let e : ks ≡ keys = ground (arith, h) in
          rw (same, e, contains-finished_none a m (rw (← (==_iff b a).0 same) d.0))
            (and_true (is_empty (erase_keys (take_keys keys []) keys)))
      | inr other ↦ rw (other, contains-finished a keys m d.1 (ground arith)) (and_false _ _)
    ]

-- An address with its keys is kept as it is when it has more than fifty, and removed when not.
pub find-after_round :
    (a : Text) (keys : List Text) (m : HashMap Text (List Text))
    → HashMap.Distinct m
    → HashMap.find a m ≡ some keys
    → HashSet.Distinct keys
    → HashMap.find a (after_round m) ≡ (if leb (length keys) 50 then none else some keys)
find-after_round a keys m d h u = ground (
  arith,
  find-erase_addresses a (finished m) m d,
  contains-finished a keys m d h,
  is_empty-left keys u,
)
