-- ===== src/Registry.antt =====
-- core/registry: the registry of agents and its lifecycle.
mod Types
pub mod Lifecycle
pub mod Store
pub mod Glob
pub mod Find
pub mod Aliases
unfoldable pub use Types.*
