-- ===== src/Protocol.antt =====
-- src/protocol/: the FTP commands of a client and the passive-mode replies.
pub mod Command
pub mod Reply
