-- ===== src/Structures.antt =====
-- The data structures of include/common/ds.
pub mod Bloom
pub mod Lru
pub mod SkipList
