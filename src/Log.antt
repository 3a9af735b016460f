-- ===== src/Log.antt =====
-- The log of a broker.
pub mod Segment
pub mod Registry
pub mod Entry
pub mod Memory
pub mod Batch
pub mod Reader
pub mod Writer
pub mod Manager
mod Tests
