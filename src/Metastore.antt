-- ===== src/Metastore.antt =====
-- The metastore of a controller: which brokers there are, and who leads a topic.
pub mod Ring
pub mod Storage
pub mod Manager
mod Tests
