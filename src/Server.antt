-- ===== src/Server.antt =====
-- src/server.rs: the listener, and how it makes a test of the first connection and data streams of
-- the others.
pub mod Handshake
pub mod Admission
pub mod Accept
pub mod InFlight
pub mod Ownership
pub mod Session
pub mod WholeSession
pub mod Starting
