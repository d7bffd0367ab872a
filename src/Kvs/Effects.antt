-- ===== src/Kvs/Effects.antt =====
-- What a handler may do to the stored keys: `Evolves s s'` is kept by every step of a handler that
-- puts under the check of the lattice type and records what it put for the next gossip.
use anna.Prelude.{==_iff, ◌≡◌, list_eq, nat_eq, true, false, some, arith, ◌⊎◌, inl}
use anna.Containers.HashMap
use anna.Containers.HashMap.{HashMap}
use anna.Containers.HashSet
use anna.Text.{Text}
use anna.Messages.{LatticeType}
use anna.Kvs.{KeyProperty, Server}
use anna.Kvs.Process.{mismatch, stored_type}

pub record Evolves {T : Type 0} (s s' : Server T) : Type 0 where
  -- a key that holds a value keeps its lattice type
  pub types :
      (k : Text) (t : LatticeType)
      → stored_type k s.stored_key_map ≡ some t
      → stored_type k s'.stored_key_map ≡ some t
  -- a key whose entry changed is in the changeset, to be gossiped
  pub recorded :
      (k : Text)
      → (HashMap.find k s'.stored_key_map ≡ HashMap.find k s.stored_key_map)
        ⊎ (HashSet.contains k s'.local_changeset ≡ true)
  -- nothing leaves the changeset
  pub kept :
      (k : Text)
      → HashSet.contains k s.local_changeset ≡ true
      → HashSet.contains k s'.local_changeset ≡ true

module _ {T : Type 0} where
  pub Evolves-same :
      (s s' : Server T)
      → s'.stored_key_map ≡ s.stored_key_map
      → s'.local_changeset ≡ s.local_changeset
      → Evolves s s'
  Evolves-same s s' e f = record {
    types = λ k t h. rw e h;
    recorded = λ k. inl (rw e);
    kept = λ k h. rw f h;
  }

  pub Evolves-trans : {s s' s'' : Server T} → Evolves s s' → Evolves s' s'' → Evolves s s''
  Evolves-trans {s} {s'} {s''} a b = record {
    types = λ k t h. b.types k t (a.types k t h);
    recorded = λ k. ground (arith, a.recorded k, b.recorded k, b.kept k);
    kept = λ k h. b.kept k (a.kept k h);
  }

-- A put that passed the check of the type leaves the type of every key that had one.
pub stored_type-assign :
    (key k : Text) (p : KeyProperty) (t : LatticeType) (m : HashMap Text KeyProperty)
    → mismatch key p.type m ≡ false
    → stored_type k m ≡ some t
    → stored_type k (HashMap.assign key p m) ≡ some t
unfolding mismatch stored_type
stored_type-assign key k p t m passed h =
    ground (arith, HashMap.find-assign key k p m, ==_iff key k)
