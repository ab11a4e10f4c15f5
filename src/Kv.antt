-- ===== src/Kv.antt =====
-- A JetStream key-value bucket and its laws (Kv/Defs), and a bucket in memory that meets them
-- (Kv/Memory).
mod Defs
pub mod Memory
pub mod Upsert
pub use Defs.{Entry, KeyValue, IsKeyValue, Codec, IsCodec}
