-- ===== src/Updated.antt =====
-- The update daemon, src/ogygia-updated: its configuration, canary record, repository, engine and
-- main loop.
pub mod Config
pub mod Canary
pub mod Result
pub mod Repo
pub mod World
pub mod Outcome
pub mod Effects
pub mod Policy
pub mod Engine
pub mod Steps
pub mod Cycle
pub mod Daemon
pub mod Fixtures
mod Tests
