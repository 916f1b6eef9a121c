-- ===== src/Proto/Bitstream.antt =====
-- src/proto/bitstream.h: the LSB-first bit writer and reader.
pub mod Bytes
pub mod Writer
pub mod Reader
pub mod Ranged
