-- ===== src/Kvs/Caches/Linked.antt =====
-- The two maps of the caches say the same: a cache holds a key exactly when the key has the cache.
use anna.Prelude.{
  ◌==◌, ==_iff, ◌≡◌, list_eq, nat_eq, not, ◌||◌, ◌&&◌, List, [], ◌∷◌, arith, if◌then◌else◌,
  Bool-cases, inl, inr,
}
use anna.Containers.HashMap
use anna.Containers.HashMap.{HashMap}
use anna.Containers.HashSet
use anna.Text.{Text}
use anna.Kvs.Caches.{CacheMaps, erase_each, unlink}

-- The elements under every key stand once.
abbrev pub EachOnce : HashMap Text (List Text) → Type 0
EachOnce m = (k : Text) → HashSet.Distinct (HashMap.at [] k m)

pub record Linked (c : CacheMaps) : Type 0 where
  pub agree :
      (ip key : Text)
      → HashSet.contains key (HashMap.at [] ip c.cache_ip_to_keys)
        ≡ HashSet.contains ip (HashMap.at [] key c.key_to_cache_ips)
  pub keys_once : EachOnce c.cache_ip_to_keys
  pub ips_once : EachOnce c.key_to_cache_ips
  pub caches_once : HashMap.Distinct c.cache_ip_to_keys

pub at-assign :
    (k j : Text) (v : List Text) (m : HashMap Text (List Text))
    → HashMap.at [] j (HashMap.assign k v m) ≡ (if k == j then v else HashMap.at [] j m)
at-assign k j v m = ground (arith, HashMap.find-assign k j v m)

pub assign-EachOnce :
    (k : Text) (v : List Text) (m : HashMap Text (List Text))
    → HashSet.Distinct v
    → EachOnce m
    → EachOnce (HashMap.assign k v m)
assign-EachOnce k v m d h j = elim (Bool-cases (k == j)) [
  | inl same ↦ rw (at-assign k j v m, same) d
  | inr other ↦ rw (at-assign k j v m, other) (h j)
]

pub contains-erase_each :
    (k : Text) (fresh keys : List Text)
    → HashSet.Distinct keys
    → HashSet.contains k (erase_each fresh keys)
      ≡ (HashSet.contains k keys && not (HashSet.contains k fresh))
unfolding erase_each HashSet.contains
contains-erase_each k [] keys d = ground arith
contains-erase_each k (f ∷ fresh) keys d = ground (
  arith,
  contains-erase_each k fresh (HashSet.erase f keys) (HashSet.erase-Distinct f keys d),
  HashSet.contains-erase f k keys d,
)

pub erase_each-Distinct :
    (fresh keys : List Text) → HashSet.Distinct keys → HashSet.Distinct (erase_each fresh keys)
unfolding erase_each
erase_each-Distinct [] keys d = d
erase_each-Distinct (f ∷ fresh) keys d =
    erase_each-Distinct fresh (HashSet.erase f keys) (HashSet.erase-Distinct f keys d)

-- The map after one key was changed.
pub contains-at-assign :
    (k j ip : Text) (v : List Text) (m : HashMap Text (List Text))
    → HashSet.contains ip (HashMap.at [] j (HashMap.assign k v m))
      ≡ (if k == j then HashSet.contains ip v else HashSet.contains ip (HashMap.at [] j m))
contains-at-assign k j ip v m = ground (arith, at-assign k j v m)

contains-erase-at :
    (cache_ip key k ip : Text) (m : HashMap Text (List Text))
    → EachOnce m
    → HashSet.contains ip
        (HashMap.at [] k (HashMap.assign key (HashSet.erase cache_ip (HashMap.at [] key m)) m))
      ≡ (HashSet.contains ip (HashMap.at [] k m) && not (cache_ip == ip && key == k))
contains-erase-at cache_ip key k ip m h = ground (
  arith,
  contains-at-assign key k ip (HashSet.erase cache_ip (HashMap.at [] key m)) m,
  HashSet.contains-erase cache_ip ip (HashMap.at [] key m) (h key),
  ==_iff key k,
)

pub contains-insert-at :
    (x key k y : Text) (m : HashMap Text (List Text))
    → HashSet.contains y
        (HashMap.at [] k (HashMap.assign key (HashSet.insert x (HashMap.at [] key m)) m))
      ≡ (HashSet.contains y (HashMap.at [] k m) || (x == y && key == k))
contains-insert-at x key k y m = ground (
  arith,
  contains-at-assign key k y (HashSet.insert x (HashMap.at [] key m)) m,
  HashSet.contains-insert x y (HashMap.at [] key m),
  ==_iff key k,
)

pub unlink-EachOnce :
    (cache_ip : Text) (keys : List Text) (m : HashMap Text (List Text))
    → EachOnce m
    → EachOnce (unlink cache_ip keys m)
unfolding unlink
unlink-EachOnce cache_ip [] m h = h
unlink-EachOnce cache_ip (key ∷ keys) m h =
    unlink-EachOnce cache_ip keys _
      (assign-EachOnce key _ m (HashSet.erase-Distinct cache_ip (HashMap.at [] key m) (h key)) h)

pub contains-unlink :
    (cache_ip : Text) (keys : List Text) (k ip : Text) (m : HashMap Text (List Text))
    → EachOnce m
    → HashSet.contains ip (HashMap.at [] k (unlink cache_ip keys m))
      ≡ (HashSet.contains ip (HashMap.at [] k m) && not (cache_ip == ip && HashSet.contains k keys))
unfolding unlink HashSet.contains
contains-unlink cache_ip [] k ip m h = ground arith
contains-unlink cache_ip (key ∷ keys) k ip m h =
    let m' = HashMap.assign key (HashSet.erase cache_ip (HashMap.at [] key m)) m in
    ground (
      arith,
      contains-unlink cache_ip keys k ip m' (
          assign-EachOnce key _ m (HashSet.erase-Distinct cache_ip (HashMap.at [] key m) (h key))
            h),
      contains-erase-at cache_ip key k ip m h,
    )
