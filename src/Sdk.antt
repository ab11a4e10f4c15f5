-- ===== src/Sdk.antt =====
-- sdk: what the library that an agent links against decides by itself.
mod Types
pub mod Idempotency
pub mod Payloads
pub mod Agent
unfoldable pub use Types.*
