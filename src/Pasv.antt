-- ===== src/Pasv.antt =====
-- src/pasv/: the pool of passive ports and the data connections.
pub mod PortManager
pub mod Relay
