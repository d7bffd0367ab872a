-- ===== src/Kvs/KvStore.antt =====
-- KVStore of include/kvs/base_kv_store.hpp: a map from keys to the objects of a lattice class.
-- `bot` is the object that the default constructor makes, `merge` what `a.merge(b)` leaves in `a`.
pub mod Union
use anna.Prelude.{
  ◌==◌, Eq, ◌≡◌, ◌≢◌, refl, sym, ◌∙◌, ap, Bool, true, false, List, [], ◌∷◌, arith, if◌then◌else◌,
  All, map,
}
use anna.Containers.HashMap
use anna.Containers.HashMap.{HashMap}
use anna.Lattice.{Lattice}
use anna.Lattice.Converge.{deliver, deliver_convergent, IsWithin}
use anna.Messages.{AnnaError}

module _ {K V : Type 0} ⦃e : Eq K⦄ (bot : V) (merge : V → V → V) where
  -- The value, the error after it and the store: `db.at(k)` makes an entry where there is none.
  unfoldable pub get : K → AnnaError → HashMap K V → (V × AnnaError) × HashMap K V
  get k error db =
      let v = HashMap.at bot k db in
      ((v, if HashMap.contains k db then error else AnnaError.key_dne), HashMap.assign k v db)

  -- `db.at(k).merge(v)`
  unfoldable pub put : K → V → HashMap K V → HashMap K V
  put k v db = HashMap.assign k (merge (HashMap.at bot k db) v) db

  unfoldable pub remove : K → HashMap K V → HashMap K V
  remove k db = if HashMap.contains k db then HashMap.erase k db else db

  -- A log of writes, the first at the front.
  unfoldable pub put_all : List (K × V) → HashMap K V → HashMap K V
  put_all [] db = db
  put_all ((k, v) ∷ log) db = put_all log (put k v db)

  pub at-put :
      (k j : K) (v : V) (db : HashMap K V)
      → HashMap.at bot j (put k v db)
        ≡ (if k == j then merge (HashMap.at bot j db) v else HashMap.at bot j db)
  unfolding put
  at-put k j v db =
      ground (arith, HashMap.find-assign k j (merge (HashMap.at bot k db) v) db, e.beq_iff k j)

  -- A get of a key after a put to it returns the merge of what was there, or of the new object,
  -- with what was put, and leaves the error unset.
  pub get-put :
      (k : K) (v : V) (error : AnnaError) (db : HashMap K V)
      → (get k error (put k v db)).0 ≡ (merge (HashMap.at bot k db) v, error)
  unfolding get put
  get-put k v error db = rw (HashMap.find-assign_self k (merge (HashMap.at bot k db) v) db) refl

  -- Neither a put to another key nor a get of it is seen by a get.
  pub get-put_ne :
      (j k : K) (v : V) (error : AnnaError) (db : HashMap K V)
      → j ≢ k
      → (get j error (put k v db)).0 ≡ (get j error db).0
  unfolding get put
  get-put_ne j k v error db differ =
      ground (arith, HashMap.find-assign k j (merge (HashMap.at bot k db) v) db, e.beq_iff k j)

  pub get-get_ne :
      (j k : K) (error error' : AnnaError) (db : HashMap K V)
      → j ≢ k
      → (get j error (get k error' db).1).0 ≡ (get j error db).0
  unfolding get
  get-get_ne j k error error' db differ =
      ground (arith, HashMap.find-assign k j (HashMap.at bot k db) db, e.beq_iff k j)

  -- A get is not a pure read: after a get of an absent key the next get finds the new object, and
  -- no longer reports that the key does not exist.
  pub get-get :
      (k : K) (error : AnnaError) (db : HashMap K V)
      → (get k error (get k error db).1).0 ≡ (HashMap.at bot k db, error)
  unfolding get
  get-get k error db = rw (HashMap.find-assign_self k (HashMap.at bot k db) db) refl

-- The writes to one key.
abbrev pub values_of : {K V : Type 0} ⦃e : Eq K⦄ → K → List (K × V) → List V
values_of k [] = []
values_of k ((j, v) ∷ log) = let rest = values_of k log in if j == k then v ∷ rest else rest

module _ {K V : Type 0} ⦃e : Eq K⦄ (L : Lattice V) where
  pub at-put_all :
      (k : K) (log : List (K × V)) (db : HashMap K V)
      → HashMap.at L.bot k (put_all L.bot L.merge log db)
        ≡ deliver L (HashMap.at L.bot k db) (values_of k log)
  unfolding put_all deliver
  at-put_all k [] db = refl
  at-put_all k ((j, v) ∷ log) db =
      at-put_all k log (put L.bot L.merge j v db)
      ∙ ap (λ a. deliver L a (values_of k log)) (at-put L.bot L.merge j k v db)
      ∙ one_write (j == k)
    where
      one_write :
          (same : Bool)
          → deliver L
              (if same then L.merge (HashMap.at L.bot k db) v else HashMap.at L.bot k db)
              (values_of k log)
            ≡ deliver L
                (HashMap.at L.bot k db)
                (if same then v ∷ values_of k log else values_of k log)
      one_write true = refl
      one_write false = refl

  -- Two nodes that start from one store and apply writes in two orders, repeated or not, show the
  -- same value of a key, if the writes to it that one of them applied are those that the other did,
  -- and these and the stored object are valid.
  pub put_all-convergent :
      (k : K) (xs ys : List (K × V)) (db : HashMap K V)
      → L.IsValid (HashMap.at L.bot k db)
      → All L.IsValid (values_of k xs)
      → All L.IsValid (values_of k ys)
      → IsWithin L.join (map L.view (values_of k xs)) (map L.view (values_of k ys))
      → IsWithin L.join (map L.view (values_of k ys)) (map L.view (values_of k xs))
      → L.view (HashMap.at L.bot k (put_all L.bot L.merge xs db))
        ≡ L.view (HashMap.at L.bot k (put_all L.bot L.merge ys db))
  put_all-convergent k xs ys db v vx vy h h' =
      ap L.view (at-put_all k xs db)
      ∙ deliver_convergent L (HashMap.at L.bot k db) (values_of k xs) (values_of k ys) v vx vy h h'
      ∙ sym (ap L.view (at-put_all k ys db))
