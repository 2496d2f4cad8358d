-- ===== src/Common.antt =====
-- lib/common: the object pools that requests and buffers come from.
pub mod Bucket
pub mod Pool
