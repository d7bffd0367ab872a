-- ===== src/Kvs/Process.antt =====
-- process_get and process_put of src/kvs/utils.cpp, and the checks that the handlers make before
-- they call them.
use anna.Prelude.{
  ◌+◌, ◌%◌, ◌≡◌, list_eq, nat_eq, Bool, false, not, ◌&&◌, Option, none, some, [], ◌∷◌, ◌++◌,
  if◌then◌else◌,
}
use anna.Containers.HashMap
use anna.Containers.HashMap.{HashMap}
use anna.Text.{Text}
use anna.Messages.{LatticeType, type_beq, AnnaError}
use anna.Run.{Run, ok, fault, null_serializer}
use anna.Kvs.{Serializers, KeyProperty, Config, Server}

module _ (S : Serializers) where
  -- `serializers[type]` is a null pointer for LatticeType::NONE
  unfoldable pub process_get : Text → LatticeType → S.Store → Run ((Text × AnnaError) × S.Store)
  process_get key LatticeType.none store = fault null_serializer
  process_get key type store = ok (S.get type key store)

  -- The two assignments of process_put, with the size that the serializer returns.
  unfoldable pub put_value : Text → LatticeType → Text → Server S.Store → Server S.Store
  put_value key lattice_type payload s =
      let (size, store) = S.put lattice_type key payload s.store in
      record s {
        store = store;
        stored_key_map =
            HashMap.assign key (record { size = size; type = lattice_type }) s.stored_key_map;
      }

  unfoldable pub process_put : Text → LatticeType → Text → Server S.Store → Run (Server S.Store)
  process_put key LatticeType.none payload s = fault null_serializer
  process_put key lattice_type payload s = ok (put_value key lattice_type payload s)

  pub process_put-eq_ok :
      (key : Text) (t : LatticeType) (payload : Text) (s s' : Server S.Store)
      → process_put key t payload s ≡ ok s'
      → s' ≡ put_value key t payload s
  unfolding process_put
  process_put-eq_ok key LatticeType.none payload s s' h = absurd (cc)
  process_put-eq_ok key _ payload s s' h = cc

-- `stored_key_map.find(key) != end && type_ != NONE && type_ != lattice_type`
unfoldable pub mismatch : Text → LatticeType → HashMap Text KeyProperty → Bool
mismatch key lattice_type stored_key_map = elim (HashMap.find key stored_key_map) [
  | none ↦ false
  | some p ↦ not (type_beq p.type LatticeType.none) && not (type_beq p.type lattice_type)
]

-- `stored_key_map.find(key) == end || type_ == NONE`: what a GET treats as absent; the type that the
-- value is read by otherwise
unfoldable pub stored_type : Text → HashMap Text KeyProperty → Option LatticeType
stored_type key stored_key_map = elim (HashMap.find key stored_key_map) [
  | none ↦ none
  | some p ↦ if type_beq p.type LatticeType.none then none else some p.type
]

-- `key_access_tracker[key].insert(now); access_count += 1;`
unfoldable pub count_access : {T : Type 0} → Config → Text → Server T → Server T
count_access config key s = record s {
  key_access_tracker =
      HashMap.assign key
        (HashMap.at [] key s.key_access_tracker ++ config.lib.clock s.net.ticks ∷ [])
        s.key_access_tracker;
  access_count = (s.access_count + 1) % 0x1_0000_0000;
  net = record s.net { ticks = s.net.ticks + 1 };
}
