-- ===== src/Pmem.antt =====
-- Persistent memory (storage_node/src/pmem): the view of a region, what a crash can leave of it,
-- little-endian serialization, the medium with its corruption and CRC, and the mock.
pub mod View
pub mod Crash
pub mod Bytes
pub mod Medium
pub mod Wrpm
pub mod Regions
pub mod Mock
pub mod Mocks
