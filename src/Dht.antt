-- ===== src/Dht.antt =====
-- lib/dht: which node serves a key.
pub mod Core
pub mod Wire
pub mod Server
pub mod Client
