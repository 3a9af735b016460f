-- ===== src/Network.antt =====
-- broker/src/pylogstream_broker/network: how a broker batches writes and serves its clients.
pub mod Writer
pub mod Broker
pub mod Dispatch
pub mod Connection
mod Tests
