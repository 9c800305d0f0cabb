-- ===== src/Examples.antt =====
-- Tests, and the theorems at concrete inputs.
mod Pools
mod Buffers
mod Addresses
mod Readings
mod Requests
mod Start
mod Races
mod Concurrent
mod Schedules
mod Upstreams
mod Starved
