-- ===== src/Log.antt =====
-- The log on one persistent memory region (storage_node/src/log).
pub mod Spec
pub mod Layout
pub mod Recover
pub mod Impl
pub mod Inv
pub mod Append
pub mod Update
pub mod Commit
pub mod Advance
pub mod Read
pub mod Setup
pub mod Start
pub mod Fresh
pub mod Allowed
pub mod Api
pub mod Tests
