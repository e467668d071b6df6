-- ===== src/Tests.antt =====
-- Runs of the theorems at concrete inputs, in one concrete environment.
pub mod World
pub mod Buffers
pub mod Pools
pub mod Valid
pub mod Serving
pub mod Flights
pub mod Wrapping
pub mod Clients
pub mod Bytes
pub mod Sessions
