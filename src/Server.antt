-- ===== src/Server.antt =====
-- src/server/: who may connect, and the sessions.
pub mod IpLimiter
pub mod Session
pub mod MetricsServer
pub mod Listener
