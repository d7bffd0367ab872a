-- ===== src/Kvs/Memory/Laws.antt =====
-- The stores of a memory node keep the interface that the handlers use.
use anna.Prelude.{
  ℕ, ==_refl, list_eq, nat_eq, ◌≡◌, ◌≢◌, refl, ap, [], if◌then◌else◌, Bool, true, false,
}
use anna.Containers.HashMap
use anna.Containers.HashMap.{HashMap}
use anna.Text.{Text}
use anna.Messages.{LatticeType, AnnaError, no_error}
use anna.Kvs.{Serializers}
use anna.Kvs.KvStore
use anna.Kvs.Memory.{
  Protobuf, Class, Stores, memory_get, memory_put, memory_remove, lww_class, set_class,
  ordered_set_class, single_class, multi_class, priority_class,
}

module _ {V : Type 0} (c : Class V) where
  -- What a serializer does for a get, of what the store gave.
  abbrev answer_of : V × AnnaError → Text × AnnaError
  answer_of (val, error) = (c.serialize val, if c.is_empty val then AnnaError.key_dne else error)

  memory_get-put_ne :
      (j k payload : Text) (db : HashMap Text V)
      → j ≢ k
      → (memory_get c j (memory_put c k payload db).1).0 ≡ (memory_get c j db).0
  unfolding memory_get memory_put
  memory_get-put_ne j k payload db differ =
      ap answer_of (KvStore.get-put_ne c.bot c.merge j k (c.deserialize payload) no_error db differ)

  memory_get-get_ne :
      (j k : Text) (db : HashMap Text V)
      → j ≢ k
      → (memory_get c j (memory_get c k db).1).0 ≡ (memory_get c j db).0
  unfolding memory_get
  memory_get-get_ne j k db differ =
      ap answer_of (KvStore.get-get_ne c.bot c.merge j k no_error no_error db differ)

  -- What was found is found again.
  memory_get-get :
      (k payload : Text) (db : HashMap Text V)
      → (memory_get c k db).0 ≡ (payload, no_error)
      → (memory_get c k (memory_get c k db).1).0 ≡ (payload, no_error)
  unfolding memory_get KvStore.get
  memory_get-get k payload db h = rw (HashMap.find-assign_self k (HashMap.at c.bot k db) db) (
      again (c.serialize (HashMap.at c.bot k db)) (c.is_empty (HashMap.at c.bot k db))
        (HashMap.contains k db) h)
    where
      again :
          (v : Text) (empty found : Bool)
          → ◌≡◌ {A = Text × AnnaError}
              (
                v,
                if empty
                    then AnnaError.key_dne
                    else (if found then no_error else AnnaError.key_dne),
              )
              (payload, no_error)
          → ◌≡◌ {A = Text × AnnaError}
              (v, if empty then AnnaError.key_dne else no_error)
              (payload, no_error)
      again v true found e = e
      again v false true e = e
      again v false false e = absurd (cc e)

module _ (pb : Protobuf) where
  -- `serializers[type]->get(key, error)`; NONE has no serializer, and no handler comes here with it
  unfoldable pub get_value : LatticeType → Text → Stores pb → (Text × AnnaError) × Stores pb
  get_value LatticeType.none key s = (([], no_error), s)
  get_value LatticeType.lww key s =
      let (r, db) = memory_get (lww_class pb) key s.lww in (r, record s { lww = db })
  get_value LatticeType.set key s =
      let (r, db) = memory_get (set_class pb) key s.set in (r, record s { set = db })
  get_value LatticeType.ordered_set key s =
      let (r, db) = memory_get (ordered_set_class pb) key s.ordered_set in
      (r, record s { ordered_set = db })
  get_value LatticeType.single_causal key s =
      let (r, db) = memory_get (single_class pb) key s.single in (r, record s { single = db })
  get_value LatticeType.multi_causal key s =
      let (r, db) = memory_get (multi_class pb) key s.multi in (r, record s { multi = db })
  get_value LatticeType.priority key s =
      let (r, db) = memory_get (priority_class pb) key s.priority in (r, record s { priority = db })

  unfoldable pub put_text : LatticeType → Text → Text → Stores pb → ℕ × Stores pb
  put_text LatticeType.none key payload s = (0, s)
  put_text LatticeType.lww key payload s =
      let (n, db) = memory_put (lww_class pb) key payload s.lww in (n, record s { lww = db })
  put_text LatticeType.set key payload s =
      let (n, db) = memory_put (set_class pb) key payload s.set in (n, record s { set = db })
  put_text LatticeType.ordered_set key payload s =
      let (n, db) = memory_put (ordered_set_class pb) key payload s.ordered_set in
      (n, record s { ordered_set = db })
  put_text LatticeType.single_causal key payload s =
      let (n, db) = memory_put (single_class pb) key payload s.single in
      (n, record s { single = db })
  put_text LatticeType.multi_causal key payload s =
      let (n, db) = memory_put (multi_class pb) key payload s.multi in (n, record s { multi = db })
  put_text LatticeType.priority key payload s =
      let (n, db) = memory_put (priority_class pb) key payload s.priority in
      (n, record s { priority = db })

  unfoldable pub remove_value : LatticeType → Text → Stores pb → Stores pb
  remove_value LatticeType.none key s = s
  remove_value LatticeType.lww key s = record s { lww = memory_remove (lww_class pb) key s.lww }
  remove_value LatticeType.set key s = record s { set = memory_remove (set_class pb) key s.set }
  remove_value LatticeType.ordered_set key s = record s {
    ordered_set = memory_remove (ordered_set_class pb) key s.ordered_set;
  }
  remove_value LatticeType.single_causal key s = record s {
    single = memory_remove (single_class pb) key s.single;
  }
  remove_value LatticeType.multi_causal key s = record s {
    multi = memory_remove (multi_class pb) key s.multi;
  }
  remove_value LatticeType.priority key s = record s {
    priority = memory_remove (priority_class pb) key s.priority;
  }

  pub get_value-put_ne :
      (t u : LatticeType) (j k payload : Text) (s : Stores pb)
      → j ≢ k
      → (get_value t j (put_text u k payload s).1).0 ≡ (get_value t j s).0
  unfolding get_value put_text
  get_value-put_ne LatticeType.none u j k payload s differ = refl
  get_value-put_ne LatticeType.lww LatticeType.lww j k payload s differ =
      memory_get-put_ne (lww_class pb) j k payload s.lww differ
  get_value-put_ne LatticeType.lww _ j k payload s differ = refl
  get_value-put_ne LatticeType.set LatticeType.set j k payload s differ =
      memory_get-put_ne (set_class pb) j k payload s.set differ
  get_value-put_ne LatticeType.set _ j k payload s differ = refl
  get_value-put_ne LatticeType.ordered_set LatticeType.ordered_set j k payload s differ =
      memory_get-put_ne (ordered_set_class pb) j k payload s.ordered_set differ
  get_value-put_ne LatticeType.ordered_set _ j k payload s differ = refl
  get_value-put_ne LatticeType.single_causal LatticeType.single_causal j k payload s differ =
      memory_get-put_ne (single_class pb) j k payload s.single differ
  get_value-put_ne LatticeType.single_causal _ j k payload s differ = refl
  get_value-put_ne LatticeType.multi_causal LatticeType.multi_causal j k payload s differ =
      memory_get-put_ne (multi_class pb) j k payload s.multi differ
  get_value-put_ne LatticeType.multi_causal _ j k payload s differ = refl
  get_value-put_ne LatticeType.priority LatticeType.priority j k payload s differ =
      memory_get-put_ne (priority_class pb) j k payload s.priority differ
  get_value-put_ne LatticeType.priority _ j k payload s differ = refl

  pub get_value-get_ne :
      (t u : LatticeType) (j k : Text) (s : Stores pb)
      → j ≢ k
      → (get_value t j (get_value u k s).1).0 ≡ (get_value t j s).0
  unfolding get_value
  get_value-get_ne LatticeType.none u j k s differ = refl
  get_value-get_ne LatticeType.lww LatticeType.lww j k s differ =
      memory_get-get_ne (lww_class pb) j k s.lww differ
  get_value-get_ne LatticeType.lww _ j k s differ = refl
  get_value-get_ne LatticeType.set LatticeType.set j k s differ =
      memory_get-get_ne (set_class pb) j k s.set differ
  get_value-get_ne LatticeType.set _ j k s differ = refl
  get_value-get_ne LatticeType.ordered_set LatticeType.ordered_set j k s differ =
      memory_get-get_ne (ordered_set_class pb) j k s.ordered_set differ
  get_value-get_ne LatticeType.ordered_set _ j k s differ = refl
  get_value-get_ne LatticeType.single_causal LatticeType.single_causal j k s differ =
      memory_get-get_ne (single_class pb) j k s.single differ
  get_value-get_ne LatticeType.single_causal _ j k s differ = refl
  get_value-get_ne LatticeType.multi_causal LatticeType.multi_causal j k s differ =
      memory_get-get_ne (multi_class pb) j k s.multi differ
  get_value-get_ne LatticeType.multi_causal _ j k s differ = refl
  get_value-get_ne LatticeType.priority LatticeType.priority j k s differ =
      memory_get-get_ne (priority_class pb) j k s.priority differ
  get_value-get_ne LatticeType.priority _ j k s differ = refl

  pub get_value-get_value :
      (t : LatticeType) (k payload : Text) (s : Stores pb)
      → (get_value t k s).0 ≡ (payload, no_error)
      → (get_value t k (get_value t k s).1).0 ≡ (payload, no_error)
  unfolding get_value
  get_value-get_value LatticeType.none k payload s h = h
  get_value-get_value LatticeType.lww k payload s h =
      memory_get-get (lww_class pb) k payload s.lww h
  get_value-get_value LatticeType.set k payload s h =
      memory_get-get (set_class pb) k payload s.set h
  get_value-get_value LatticeType.ordered_set k payload s h =
      memory_get-get (ordered_set_class pb) k payload s.ordered_set h
  get_value-get_value LatticeType.single_causal k payload s h =
      memory_get-get (single_class pb) k payload s.single h
  get_value-get_value LatticeType.multi_causal k payload s h =
      memory_get-get (multi_class pb) k payload s.multi h
  get_value-get_value LatticeType.priority k payload s h =
      memory_get-get (priority_class pb) k payload s.priority h

  -- The serializers of a memory node.
  abbrev pub memory_serializers : Serializers
  memory_serializers = record {
    Store = Stores pb;
    get = get_value;
    put = put_text;
    remove = remove_value;
    get-put_ne = get_value-put_ne;
    get-get_ne = get_value-get_ne;
    get-get = get_value-get_value;
  }

module _ {V : Type 0} (c : Class V) where
  at-put_self :
      (key payload : Text) (db : HashMap Text V)
      → HashMap.at c.bot key (KvStore.put c.bot c.merge key (c.deserialize payload) db)
        ≡ c.merge (HashMap.at c.bot key db) (c.deserialize payload)
  at-put_self key payload db =
      rw (KvStore.at-put c.bot c.merge key key (c.deserialize payload) db, ==_refl key) refl

  -- A put returns the size of the merge of what was stored, or of the new object, with what was
  -- put; a get after it returns the payload of this merge, or KEY_DNE if the class takes it for an
  -- absent value.
  pub memory_get-put :
      (key payload : Text) (db : HashMap Text V)
      → (let v = c.merge (HashMap.at c.bot key db) (c.deserialize payload) in
          ((memory_put c key payload db).0 ≡ c.size v)
          × ((memory_get c key (memory_put c key payload db).1).0
              ≡ (c.serialize v, if c.is_empty v then AnnaError.key_dne else no_error)))
  unfolding memory_get memory_put
  memory_get-put key payload db = (
    ap c.size (at-put_self key payload db),
    ap (answer_of c) (KvStore.get-put c.bot c.merge key (c.deserialize payload) no_error db),
  )
