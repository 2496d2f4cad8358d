-- ===== src/Pmem.antt =====
-- lib/pmem: the index of the keys in persistent memory.
pub mod ArTree
