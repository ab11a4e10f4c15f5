-- ===== src/Federation.antt =====
-- core/federation: the nodes that know each other.
pub mod Nodes
pub mod Monitor
pub mod Relaying
pub mod Sync
