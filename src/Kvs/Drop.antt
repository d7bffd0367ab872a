-- ===== src/Kvs/Drop.antt =====
-- The removal of a key that a thread no longer holds, as replication_change_handler and the
-- redistribution in src/kvs/server.cpp make it.
use anna.Prelude.{
  ◌≡◌, refl, ap, ◌∙◌, list_eq, nat_eq, Option, none, some, List, ◌∷◌, arith, if◌then◌else◌,
}
use anna.Containers.HashMap
use anna.Containers.HashMap.{HashMap}
use anna.Containers.HashSet
use anna.Text.{Text}
use anna.Messages.{LatticeType}
use anna.Run.{Run, ok, fault, null_serializer, Ensures, returns, faults}
use anna.Kvs.{Serializers, KeyProperty, Server}

-- What the server knows of a key after it was dropped is nothing, and of the others what it was.
pub record Drops {T : Type 0} (keys : List Text) (s s' : Server T) : Type 0 where
  pub stored :
      (k : Text)
      → HashMap.find k s'.stored_key_map
        ≡ (if HashSet.contains k keys then none else HashMap.find k s.stored_key_map)
  pub distinct : HashMap.Distinct s'.stored_key_map
  pub rest : s' ≡ record s {
    store = s'.store;
    stored_key_map = s'.stored_key_map;
    local_changeset = s'.local_changeset;
  }

find-drop :
    (key k : Text) (keys : List Text) (m : HashMap Text KeyProperty)
    → HashMap.Distinct m
    → (if HashSet.contains k keys then none else HashMap.find k (HashMap.erase key m))
      ≡ (if HashSet.contains k (key ∷ keys) then none else HashMap.find k m)
unfolding HashSet.contains
find-drop key k keys m d = ground (arith, HashMap.find-erase key k m d)

module _ (S : Serializers) where
  -- `serializers[stored_key_map[key].type_]->remove(key); stored_key_map.erase(key);`, where a key
  -- without an entry gets one of type NONE
  unfoldable drop_typed : Text → LatticeType → Server S.Store → Run (Server S.Store)
  drop_typed key LatticeType.none s = fault null_serializer
  drop_typed key type s = ok (record s {
    store = S.remove type key s.store;
    stored_key_map = HashMap.erase key s.stored_key_map;
  })

  abbrev pub type_in : Option KeyProperty → LatticeType
  type_in none = LatticeType.none
  type_in (some p) = p.type

  unfoldable pub drop_key : Text → Server S.Store → Run (Server S.Store)
  unfolding drop_typed
  drop_key key s = drop_typed key (type_in (HashMap.find key s.stored_key_map)) s

  abbrev pub DropsOne : Text → Server S.Store → Server S.Store → Type 0
  DropsOne key s s' =
      s' ≡ record s { store = s'.store; stored_key_map = HashMap.erase key s.stored_key_map }

  drop_typed_lem :
      (key : Text) (t : LatticeType) (s : Server S.Store)
      → Ensures (DropsOne key s) (drop_typed key t s)
  unfolding drop_typed
  drop_typed_lem key LatticeType.none s = faults
  drop_typed_lem key LatticeType.lww s = returns refl
  drop_typed_lem key LatticeType.set s = returns refl
  drop_typed_lem key LatticeType.single_causal s = returns refl
  drop_typed_lem key LatticeType.multi_causal s = returns refl
  drop_typed_lem key LatticeType.ordered_set s = returns refl
  drop_typed_lem key LatticeType.priority s = returns refl

  -- A drop that returns changes the stores, and erases the key's entry.
  pub drop_key_lem : (key : Text) (s : Server S.Store) → Ensures (DropsOne key s) (drop_key key s)
  unfolding drop_key
  drop_key_lem key s = drop_typed_lem key (type_in (HashMap.find key s.stored_key_map)) s

  -- To drop a key and then others.
  pub Drops-cons :
      (key : Text) (keys : List Text) (s s' s'' : Server S.Store)
      → HashMap.Distinct s.stored_key_map
      → s' ≡ record s {
        store = s'.store;
        stored_key_map = HashMap.erase key s.stored_key_map;
        local_changeset = s'.local_changeset;
      }
      → Drops keys s' s''
      → Drops (key ∷ keys) s s''
  Drops-cons key keys s s' s'' d e h = record {
    stored = λ k.
        h.stored k
        ∙ rw (ap (λ (r : Server S.Store). r.stored_key_map) e)
            (find-drop key k keys s.stored_key_map d);
    distinct = h.distinct;
    rest =
        h.rest
        ∙ ap
            (λ (r : Server S.Store). record r {
              store = s''.store;
              stored_key_map = s''.stored_key_map;
              local_changeset = s''.local_changeset;
            })
            e;
  }
