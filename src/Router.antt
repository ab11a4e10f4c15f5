-- ===== src/Router.antt =====
-- core/router: which way an event takes (Strategy), which stream an event type belongs to (Streams),
-- and the dispatch itself (Dispatch).
pub mod Strategy
pub mod Streams
pub mod Dispatch
