-- ===== src/Tests.antt =====
-- Runs of the components on concrete inputs.
pub mod Segments
pub mod Blocks
pub mod Openings
pub mod Logs
pub mod Stores
pub mod Backends
pub mod Services
pub mod Caches
pub mod Managers
pub mod Registries
