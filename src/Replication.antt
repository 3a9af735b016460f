-- ===== src/Replication.antt =====
-- broker/src/pylogstream_broker/replication: what a broker does as the leader of a topic, and how it
-- follows the controller's metadata.
pub mod Waiters
pub mod InSync
pub mod Leader
pub mod Fetcher
pub mod Manager
mod Tests
