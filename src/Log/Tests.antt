-- ===== src/Log/Tests.antt =====
-- A log of four bytes, set up, filled, committed, advanced and wrapped; the theorems hold of it.
pub mod Fixtures
pub mod Bytes
mod Calls
mod Recovery
mod Durable
mod Layers
