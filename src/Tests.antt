-- ===== src/Tests.antt =====
-- Runs of the code at concrete inputs.
pub mod World
pub mod Retries
pub mod Numbers
pub mod Versions
pub mod Messages
pub mod Buffers
pub mod Channels
mod Deliveries
mod Handshakes
mod Clusters
mod Outstanding
mod Challenges
mod Sockets
mod Sessions
pub mod Lifecycles
pub mod Services
mod Reordering
