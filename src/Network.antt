-- ===== src/Network.antt =====
-- The TCP front end: src/TCPServer.cpp and include/lumen/network/TCPServer.hpp.
pub mod Session
pub mod Buffers
pub mod Header
pub mod Body
pub mod Feed
pub mod Framing
pub mod Kernel
pub mod Sessions
pub mod Server
pub mod Setup
mod Tests
