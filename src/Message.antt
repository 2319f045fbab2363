-- ===== src/Message.antt =====
-- The package message: what the modules below share.
pub mod Types
pub mod PayloadType
pub mod Readers
pub mod Writers
pub mod Codec
pub mod Handshake
