-- ===== src/Wire.antt =====
-- The wire format: bytes, packets, and how they are built and read back.
pub mod Bytes
pub mod Packet
pub mod Builder
pub mod Parser
pub mod RoundTrip
