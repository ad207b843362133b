-- ===== src/Backend.antt =====
-- src/backend/: which backend and which source address a session uses, and how it talks to a backend.
pub mod Rotator
pub mod Tls
pub mod DnsCache
pub mod Connection
pub mod Selector
pub mod Source
