-- ===== src/Pool.antt =====
-- internal/pool: the pools of connections and of buffers. The package's variables are one record,
-- `PoolState`; its functions are the children's.
pub mod State
pub mod Settings
pub mod Dial
pub mod TestHelpers
pub mod Upstream
pub mod Conservation
pub mod Frame
pub mod Leases
pub mod Untouched
pub mod Custody
pub mod Leasing
pub mod Places
pub mod Placing
pub mod Race
pub mod Branches
pub mod Reuse
pub mod Semaphore
pub mod Buffers
pub mod Accounting
pub mod PipeCopy
