-- ===== src/Metadata.antt =====
-- include/metadata.hpp: tiers, replication factors and the keys of metadata.
pub mod Names
use anna.Prelude.{
  ℕ, ◌==◌, Eq, nat_eq, list_eq, ◌≡◌, ◌↔◌, refl, ◌∙◌, Bool, true, Option, none, some, List, [], ◌∷◌,
  ◌++◌, if◌then◌else◌, arith,
}
use anna.Containers.HashMap
use anna.Containers.HashMap.{HashMap}
use anna.Text.{Text, codes, split}
use anna.Run.{Run, ok, fault, out_of_range}

pub data Tier : Type 0 where
  tier_unspecified memory disk routing : Tier

abbrev pub tier_number : Tier → ℕ
tier_number tier_unspecified = 0
tier_number memory = 1
tier_number disk = 2
tier_number routing = 3

abbrev pub tier_beq : Tier → Tier → Bool
tier_beq a b = tier_number a == tier_number b

pub tier_beq_iff : (a b : Tier) → (tier_beq a b ≡ true) ↔ (a ≡ b)
tier_beq_iff a b = ground arith

instance abbrev pub tier_eq : Eq Tier
tier_eq = record { beq = tier_beq; beq_iff = tier_beq_iff }

-- kAllTiers of include/kvs_common.hpp
abbrev pub all_tiers : List Tier
all_tiers = memory ∷ disk ∷ []

pub record KeyReplication : Type 0 where
  pub global_replication : HashMap Tier ℕ
  pub local_replication : HashMap Tier ℕ

abbrev pub no_replication : KeyReplication
no_replication = record { global_replication = []; local_replication = [] }

abbrev pub metadata_identifier : Text
metadata_identifier = codes "ANNA_METADATA"

abbrev pub metadata_delimiter : ℕ
metadata_delimiter = b'|'

abbrev pub metadata_type_replication : Text
metadata_type_replication = codes "replication"

-- `is_metadata`: the first item of the key, which an empty key does not have
first_is : List Text → Run Bool
first_is [] = fault out_of_range
first_is (v ∷ vs) = ok (v == metadata_identifier)

unfoldable pub is_metadata : Text → Run Bool
unfolding first_is
is_metadata key = first_is (split key metadata_delimiter)

-- `get_metadata_key(data_key, MetadataType::replication)`
unfoldable pub get_metadata_key : Text → Text
get_metadata_key data_key =
    metadata_identifier
    ++ metadata_delimiter ∷ (metadata_type_replication ++ metadata_delimiter ∷ data_key)

-- `s.find(c)`, as what stands before the first `c` and after it; `none` is `npos`
unfoldable pub cut : ℕ → Text → Text → Option (Text × Text)
cut c before [] = none
cut c before (d ∷ s) =
    let more = cut c (before ++ d ∷ []) s in if d == c then some (before, s) else more

-- The second `find` begins behind the first delimiter. Without a second one `n_type + 1` is 0, and
-- the whole string comes back.
second_part : Text → Text → Option (Text × Text) → Text
second_part whole rest none = if rest == metadata_type_replication then whole else []
second_part whole rest (some (type, key)) = if type == metadata_type_replication then key else []

-- Without a first delimiter both positions are `npos`, and the type is the whole string.
first_part : Text → Option (Text × Text) → Text
unfolding cut second_part
first_part whole none = if whole == metadata_type_replication then whole else []
first_part whole (some (identifier, rest)) = second_part whole rest (cut metadata_delimiter [] rest)

unfoldable pub get_key_from_metadata : Text → Text
unfolding first_part
get_key_from_metadata metadata_key =
    first_part metadata_key (cut metadata_delimiter [] metadata_key)

-- The key of a data key's metadata names that data key, whatever bytes it has.
pub get_key_from_metadata-get_metadata_key :
    (key : Text) → get_key_from_metadata (get_metadata_key key) ≡ key
unfolding get_key_from_metadata get_metadata_key
get_key_from_metadata-get_metadata_key key = refl

-- Such a key is one of metadata, so its own replication factor is never asked for.
pub is_metadata-get_metadata_key : (key : Text) → is_metadata (get_metadata_key key) ≡ ok true
unfolding is_metadata get_metadata_key split
is_metadata-get_metadata_key key = refl

-- The empty key gives an empty vector, and `v[0]` reads past its end.
pub is_metadata-out_of_range : is_metadata [] ≡ fault out_of_range
unfolding is_metadata split
is_metadata-out_of_range = refl

-- ReplicationFactor of include/proto/metadata.proto, as the generated class holds it.
pub record ReplicationValue : Type 0 where
  pub tier : Tier
  pub value : ℕ

pub record ReplicationFactor : Type 0 where
  pub key : Text
  pub global : List ReplicationValue
  pub local : List ReplicationValue

-- `key_replication_map[key].global_replication_[tier] = value`
unfoldable pub set_global :
    Text → Tier → ℕ → HashMap Text KeyReplication → HashMap Text KeyReplication
set_global key tier value m =
    let rep = HashMap.at no_replication key m in
    HashMap.assign key
      (record rep { global_replication = HashMap.assign tier value rep.global_replication }) m

unfoldable pub set_local :
    Text → Tier → ℕ → HashMap Text KeyReplication → HashMap Text KeyReplication
set_local key tier value m =
    let rep = HashMap.at no_replication key m in
    HashMap.assign key
      (record rep { local_replication = HashMap.assign tier value rep.local_replication }) m

-- `for (const auto &global : rep_data.global())`, and the same for the local values
unfoldable pub set_globals :
    Text → List ReplicationValue → HashMap Text KeyReplication → HashMap Text KeyReplication
set_globals key [] m = m
set_globals key (v ∷ values) m = set_globals key values (set_global key v.tier v.value m)

unfoldable pub set_locals :
    Text → List ReplicationValue → HashMap Text KeyReplication → HashMap Text KeyReplication
set_locals key [] m = m
set_locals key (v ∷ values) m = set_locals key values (set_local key v.tier v.value m)

-- The two loops, for the key of the handler.
unfoldable pub set_replication :
    Text → ReplicationFactor → HashMap Text KeyReplication → HashMap Text KeyReplication
set_replication key rep_data m = set_locals key rep_data.local (set_globals key rep_data.global m)

-- `for (const Tier &tier : kAllTiers)` of init_replication
init_tiers :
    (Tier → ℕ) → ℕ → Text → List Tier → HashMap Text KeyReplication → HashMap Text KeyReplication
init_tiers default_replication default_local key [] m = m
init_tiers default_replication default_local key (tier ∷ tiers) m =
    init_tiers default_replication default_local key tiers
      (set_local key tier default_local (set_global key tier (default_replication tier) m))

unfoldable pub init_replication :
    (Tier → ℕ) → ℕ → Text → HashMap Text KeyReplication → HashMap Text KeyReplication
unfolding init_tiers
init_replication default_replication default_local key m =
    init_tiers default_replication default_local key all_tiers m

abbrev add_global : Tier → ℕ → KeyReplication → KeyReplication
add_global tier v rep = record rep {
  global_replication = HashMap.assign tier v rep.global_replication;
}

abbrev add_local : Tier → ℕ → KeyReplication → KeyReplication
add_local tier v rep = record rep {
  local_replication = HashMap.assign tier v rep.local_replication;
}

find-set_global :
    (key : Text) (tier : Tier) (v : ℕ) (m : HashMap Text KeyReplication)
    → HashMap.find key (set_global key tier v m)
      ≡ some (add_global tier v (HashMap.at no_replication key m))
unfolding set_global
find-set_global key tier v m = HashMap.find-assign_self key _ m

find-set_local :
    (key : Text) (tier : Tier) (v : ℕ) (m : HashMap Text KeyReplication)
    → HashMap.find key (set_local key tier v m)
      ≡ some (add_local tier v (HashMap.at no_replication key m))
unfolding set_local
find-set_local key tier v m = HashMap.find-assign_self key _ m

find-both_tiers :
    (d v : ℕ) (m : HashMap Tier ℕ)
    → (HashMap.find memory (HashMap.assign disk d (HashMap.assign memory v m)) ≡ some v)
      × (HashMap.find disk (HashMap.assign disk d (HashMap.assign memory v m)) ≡ some d)
find-both_tiers d v m = (
  HashMap.find-assign disk memory d (HashMap.assign memory v m)
      ∙ HashMap.find-assign_self memory v m,
  HashMap.find-assign_self disk d (HashMap.assign memory v m),
)

-- A key whose factors were set by default is known afterwards, with the defaults of both tiers.
pub find-init_replication :
    (default_replication : Tier → ℕ) (default_local : ℕ) (key : Text)
    (m : HashMap Text KeyReplication)
    → (rep : KeyReplication) × (HashMap.find key
          (init_replication default_replication default_local key m)
        ≡ some rep)
      × (HashMap.find memory rep.global_replication ≡ some (default_replication memory))
      × (HashMap.find disk rep.global_replication ≡ some (default_replication disk))
      × (HashMap.find memory rep.local_replication ≡ some default_local)
      × (HashMap.find disk rep.local_replication ≡ some default_local)
unfolding init_replication
find-init_replication default_replication default_local key m =
    let m1 = set_global key memory (default_replication memory) m in
    let m2 = set_local key memory default_local m1 in
    let m3 = set_global key disk (default_replication disk) m2 in
    rw
      (
        find-set_local key disk default_local m3,
        find-set_global key disk (default_replication disk) m2,
        find-set_local key memory default_local m1,
        find-set_global key memory (default_replication memory) m,
      )
      (let globals =
          find-both_tiers (default_replication disk) (default_replication memory)
            (HashMap.at no_replication key m).global_replication in
        let locals =
          find-both_tiers default_local default_local
            (HashMap.at no_replication key m).local_replication in
        (_, refl, globals.0, globals.1, locals.0, locals.1))
