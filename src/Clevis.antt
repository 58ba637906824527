-- ===== src/Clevis.antt =====
-- The Clevis blob maintainer, src/ogygia-clevis: its spec, the decision, the pins that a blob is
-- bound to, the probes and the replacement of the blob.
pub mod Config
pub mod Decision
pub mod Blob
pub mod Disk
pub mod Swap
pub mod Probe
pub mod Main
pub mod Fixtures
mod Tests
