-- ===== src/Protocol.antt =====
-- The package protocol: outgoing messages (msg.go) and incoming packets (packet.go).
pub mod ProtoMsg
pub mod StructMsg
pub mod PlainMsg
pub mod Packet
pub mod Branches
pub mod Incoming
pub mod Malformed
