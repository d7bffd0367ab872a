-- ===== src/Containers.antt =====
-- The standard containers that the program stores its state in (`map`, `set` and `ordered_set` of
-- common/include/types.hpp), as far as the program uses them.
pub mod HashMap
pub mod HashSet
pub mod MapEquality
