-- ===== src/Protocol.antt =====
-- labztna/protocol.py: the frames of the data plane and their incremental decoder.
pub mod Frame
pub mod Codec
pub mod Messages
