-- ===== src/Tests.antt =====
-- The theorems at concrete inputs.
pub mod Workflows
pub mod Agents
pub mod Routes
pub mod Names
pub mod Clients
pub mod Aliases
pub mod Peers
pub mod Relays
