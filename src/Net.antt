-- ===== src/Net.antt =====
-- src/net: the transport.
pub mod SequenceBuffer
pub mod Reliability
