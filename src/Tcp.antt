-- ===== src/Tcp.antt =====
-- core/src/TCP and core/include/TCP, a module to each source file; `decode_message` and the framing
-- of TCPConnection.cpp have a module of their own.
pub mod Message
pub mod Connection
pub mod Delivery
pub mod Channel
pub mod Worker
pub mod Server
pub mod Client
mod Tests
