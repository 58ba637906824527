-- ===== src/Irisd.antt =====
-- The Bloom filters of the cache daemon, src/ogygia-irisd/src/bloom: the wire format, the local
-- filter and its rebuilds, and the cached filters of the peers.
pub mod Wire
pub mod Local
pub mod Peers
mod Tests
