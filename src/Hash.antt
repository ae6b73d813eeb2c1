-- ===== src/Hash.antt =====
-- include/wmc/idhashtable.h: the hash table of ids with its nodes inside the values.
pub mod Table
pub mod Chains
pub mod Laws
pub mod Tests
