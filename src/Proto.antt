-- ===== src/Proto.antt =====
-- src/proto: the wire formats.
pub mod Bitstream
pub mod Packet
pub mod Quantizer
pub mod Snapshot
pub mod Messages
