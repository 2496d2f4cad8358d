-- ===== src/Tests.antt =====
-- Concrete allocators and states, on which the theorems about the program are applied.
pub mod Pools
pub mod FreeLists
pub mod LbaBuckets
pub mod Trees
pub mod Routes
pub mod Buckets
pub mod TreeRuns
pub mod Pipelines
pub mod Stores
pub mod ObjectPools
pub mod Jbods
pub mod Messages
pub mod Remotes
pub mod IoBuffers
