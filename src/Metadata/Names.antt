-- ===== src/Metadata/Names.antt =====
-- The names of the tiers, as protobuf's `Tier_Name` and `Tier_Parse` have them for the enumeration in
-- include/proto/metadata.proto, and the keys of other metadata than replication factors.
use anna.Prelude.{
  ◌==◌, list_eq, nat_eq, ◌≡◌, refl, Option, none, some, [], ◌∷◌, ◌++◌, if◌then◌else◌, ℕ,
}
use anna.Text.{Text, codes, to_string}
use anna.Metadata.{
  Tier, tier_unspecified, memory, disk, routing, metadata_identifier, metadata_delimiter, cut,
}
use anna.Threads.{ServerThread}

abbrev pub tier_name : Tier → Text
tier_name tier_unspecified = codes "TIER_UNSPECIFIED"
tier_name memory = codes "MEMORY"
tier_name disk = codes "DISK"
tier_name routing = codes "ROUTING"

-- `Tier_Parse(name, &tier)`; where it fails, `tier` keeps the value that it was not given
unfoldable pub tier_parse : Text → Option Tier
tier_parse name =
    if name == codes "TIER_UNSPECIFIED"
    then some tier_unspecified
    else if name == codes "MEMORY"
    then some memory
    else if name == codes "DISK"
    then some disk
    else if name == codes "ROUTING"
    then some routing
    else none

pub tier_parse-tier_name : (tier : Tier) → tier_parse (tier_name tier) ≡ some tier
unfolding tier_parse
tier_parse-tier_name tier_unspecified = refl
tier_parse-tier_name memory = refl
tier_parse-tier_name disk = refl
tier_parse-tier_name routing = refl

abbrev pub metadata_type_cache_ip : Text
metadata_type_cache_ip = codes "cache_ip"

-- `get_user_metadata_key(data_key, UserMetadataType::cache_ip)` of common/include/common.hpp
unfoldable pub get_user_metadata_key : Text → Text
get_user_metadata_key data_key =
    metadata_identifier
    ++ metadata_delimiter ∷ (metadata_type_cache_ip ++ metadata_delimiter ∷ data_key)

user_second_part : Text → Text → Option (Text × Text) → Text
user_second_part whole rest none = if rest == metadata_type_cache_ip then whole else []
user_second_part whole rest (some (type, key)) = if type == metadata_type_cache_ip then key else []

user_first_part : Text → Option (Text × Text) → Text
unfolding cut user_second_part
user_first_part whole none = if whole == metadata_type_cache_ip then whole else []
user_first_part whole (some (identifier, rest)) =
    user_second_part whole rest (cut metadata_delimiter [] rest)

-- get_key_from_user_metadata of common/include/common.hpp, with the same two searches as
-- get_key_from_metadata
unfoldable pub get_key_from_user_metadata : Text → Text
unfolding user_first_part cut
get_key_from_user_metadata metadata_key =
    user_first_part metadata_key (cut metadata_delimiter [] metadata_key)

pub get_key_from_user_metadata-get_user_metadata_key :
    (key : Text) → get_key_from_user_metadata (get_user_metadata_key key) ≡ key
unfolding get_key_from_user_metadata get_user_metadata_key
get_key_from_user_metadata-get_user_metadata_key key = refl

-- MetadataType of include/metadata.hpp, but for `replication`
pub data StatsType : Type 0 where
  server_stats key_access key_size : StatsType

abbrev pub stats_name : StatsType → Text
stats_name server_stats = codes "stats"
stats_name key_access = codes "access"
stats_name key_size = codes "size"

-- `get_metadata_key(st, tier_id, thread_num, type)`
unfoldable pub get_stats_key : ServerThread → Tier → ℕ → StatsType → Text
get_stats_key st tier_id thread_num type =
    metadata_identifier
    ++ metadata_delimiter
      ∷ (stats_name type
          ++ metadata_delimiter
            ∷ (st.public_ip
                ++ metadata_delimiter
                  ∷ (st.private_ip
                      ++ metadata_delimiter
                        ∷ (to_string thread_num ++ metadata_delimiter ∷ tier_name tier_id))))
