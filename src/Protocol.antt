-- ===== src/Protocol.antt =====
-- The wire protocol: protocol/src/pylogstream_protocol.
pub mod Framer
pub mod Packets
pub mod Encoder
pub mod Parser
pub mod RoundTrip
mod Tests
