-- ===== src/Tests.antt =====
-- Runs on concrete tables, and the theorems applied to them.
pub mod Applied
pub mod Filters
pub mod Charts
pub mod Grants
pub mod Incoming
pub mod Keys
pub mod People
pub mod Queues
pub mod Reliable
pub mod Samples
