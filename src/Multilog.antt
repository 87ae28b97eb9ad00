-- ===== src/Multilog.antt =====
-- Several logs with an atomic commit over all of them (storage_node/src/multilog): the abstract
-- state, the layout of a region, and recovery.
pub mod Spec
pub mod Layout
pub mod Recover
pub mod Recovered
pub mod Impl
pub mod Inv
pub mod Update
pub mod Commit
pub mod Advance
pub mod Append
pub mod Read
pub mod Setup
pub mod Start
pub mod Fresh
pub mod Allowed
pub mod Api
mod Tests
