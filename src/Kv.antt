-- ===== src/Kv.antt =====
-- The interface KvStore of attestation/kv.store.ts: the port behind the attestation state. The
-- time of a call is an argument; a lifetime that is left out is `none`.
pub mod Memory
pub mod Upstash
pub mod Port
pub mod Spec
pub use Port.{KvStore, KvLaws, KvKeeps}
