-- ===== src/Kvs/ReplicationChange/Factors.antt =====
-- Updates of replication factors, one after the other, set the factors that the routing threads set.
use anna.Prelude.{◌≡◌, refl, ap, ◌∙◌, list_eq, nat_eq, List, [], ◌∷◌, ◌++◌}
use anna.Containers.HashMap.{HashMap}
use anna.Text.{Text}
use anna.Metadata.{
  KeyReplication, ReplicationValue, ReplicationFactor, set_replication, set_globals, set_locals,
}
use anna.Kvs.ReplicationChange.{lower_globals, lower_locals}
use anna.Route.{set_all_replications}

lower_globals-set :
    (key : Text) (values : List ReplicationValue) (m : HashMap Text KeyReplication)
    → (lower_globals key values m).1 ≡ set_globals key values m
unfolding lower_globals set_globals
lower_globals-set key [] m = refl
lower_globals-set key (v ∷ values) m = lower_globals-set key values _

lower_locals-set :
    (key : Text) (values : List ReplicationValue) (m : HashMap Text KeyReplication)
    → (lower_locals key values m).1 ≡ set_locals key values m
unfolding lower_locals set_locals
lower_locals-set key [] m = refl
lower_locals-set key (v ∷ values) m = lower_locals-set key values _

-- The factors that a stored key gets are those that an update sets.
pub lower-set_replication :
    (key : Text) (r : ReplicationFactor) (m : HashMap Text KeyReplication)
    → (lower_locals key r.local (lower_globals key r.global m).1).1 ≡ set_replication key r m
unfolding set_replication
lower-set_replication key r m =
    lower_locals-set key r.local (lower_globals key r.global m).1
    ∙ ap (set_locals key r.local) (lower_globals-set key r.global m)

pub set_all-append :
    (xs ys : List ReplicationFactor) (m : HashMap Text KeyReplication)
    → set_all_replications (xs ++ ys) m ≡ set_all_replications ys (set_all_replications xs m)
unfolding set_all_replications
set_all-append [] ys m = refl
set_all-append (x ∷ xs) ys m = set_all-append xs ys (set_replication x.key x m)
