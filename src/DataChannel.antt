-- ===== src/DataChannel.antt =====
-- The package datachannel.
pub mod ListBuffer
pub mod MapBuffer
pub mod State
pub mod Sending
pub mod Handlers
pub mod Handshake
pub mod Receiving
pub mod Lifecycle
pub mod Encrypters
