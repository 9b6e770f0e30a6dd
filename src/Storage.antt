-- ===== src/Storage.antt =====
-- core/src/Storage and core/include/Storage.
pub mod Key
pub mod Value
pub mod Json
pub mod Server
pub mod Client
pub mod Exchange
pub mod Host
