-- ===== src/Controller.antt =====
-- controller/src/pylogstream_controller/server.py: the controller's server, in front of the metastore.
pub mod Broadcast
pub mod Server
mod Tests
