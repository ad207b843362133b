-- ===== src/Server/Session.antt =====
-- src/server/session.rs: one client's session. `handle` connects to the backend, passes its banner on,
-- and then takes one line of the client at a time. What only goes to the log is left out.
pub mod Config
pub mod Lines
pub mod Connect
pub mod Channel
pub mod Upload
pub mod Loop
pub mod Effects
pub mod Commands
pub mod Accounts
pub mod Ports
pub mod Slots
pub mod Secrecy
mod Tests
