-- ===== src/Readers.antt =====
-- internal/readers: the readers that stand between an upstream connection and the client.
pub mod PoolReader
pub mod Held
pub mod Limited
pub mod Reused
pub mod Chunked
pub mod Owing
pub mod TimedReader
pub mod Observed
pub mod Content
