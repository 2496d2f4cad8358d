-- ===== src/Offload.antt =====
-- lib/offload: where the long-term values go on the drive.
pub mod FreeList
pub mod LbaAlloc
