-- ===== src/Ring.antt =====
-- The hash rings of include/hash_ring.hpp, include/consistent_hash_map.hpp and src/hash_ring.
pub mod MetadataRequest
pub mod ConsistentHashMap
pub mod Walk
pub mod HashRing
pub mod Responsible
