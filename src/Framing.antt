-- ===== src/Framing.antt =====
-- How a byte stream is cut into packets: server/net/PacketAssembler.cpp and the read loop of
-- server/net/ClientSession.cpp.
pub mod Server
