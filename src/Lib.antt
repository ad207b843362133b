-- ===== src/Lib.antt =====
-- The FTP upload gateway, modelled and verified.
--
-- The gateway stands between FTP clients that upload files and a fixed set of backend servers. A
-- session (src/server/session.rs) connects to a backend, passes commands and replies on, and answers
-- PASV and EPSV itself with a port of its own; for STOR it takes the client's data connection, opens
-- one to the backend as a passive-mode client, and relays the bytes. It draws ports from a pool
-- (src/pasv/port_manager.rs), may speak TLS to the backend (src/backend/tls.rs), may spread its
-- connections over several source addresses (src/backend/rotator.rs), and keeps metrics
-- (src/metrics.rs). A limiter (src/server/ip_limiter.rs) bounds the connections of each address.
--
-- Files:
--   Base, Io, Net: texts, lists, maps, decimal numbers, error kinds and addresses; what is used of
--     the standard library is modelled there.
--   Protocol/Command: src/protocol/command.rs, with FtpCommand, parse, as_log_str and
--     escape_control_chars under the names of the source.
--   Protocol/Reply: src/protocol/reply.rs.
--   Pasv/PortManager: src/pasv/port_manager.rs. The set is a list without repetition, the cursor a
--     32-bit number; allocate is a search of as many rounds as the range has ports.
--   Pasv/Relay: src/pasv/relay.rs. A copy loop runs over the list of what happens to it.
--   Backend/Tls: the negotiation of src/backend/tls.rs; Backend/Tls/Connector has the connectors, with
--     rustls as an argument, and Backend/Tls/Sessions those of all sessions together.
--   Backend/Rotator: src/backend/rotator.rs, its state under the mutex as one record; the start and the
--     refreshes stand in Backend/Rotator/Refresh, the snapshot for the metrics in
--     Backend/Rotator/Snapshot, with the stable sort of Base/Sorting.
--   Backend/Selector, Backend/Source, Backend/DnsCache, Backend/Connection: the files of these names
--     under src/backend/. In the glob matcher a position in a text is the text from there on.
--   Config: src/config.rs: the parsers of lists, backends and port ranges; Config/Settings has the
--     settings with their defaults and the parsers of the modes, Config/File what a YAML file gives,
--     Config/Load the overrides from the environment, the validation and load. A Host is what lies
--     outside: variables, files, and the standard library's readers of addresses.
--   Metrics: the counters, gauges and guards of src/metrics.rs; Metrics/Render is its text format.
--     Metrics/Scrape reads that format, on its own.
--   Server/IpLimiter: src/server/ip_limiter.rs.
--   Server/MetricsServer: src/server/metrics_server.rs, one request and its answer, over the bytes that
--     a peer sends; Server/MetricsServer/Client reads an answer, on its own.
--   Server/Listener/Start: what src/main.rs and src/server/listener.rs build before the accept loop;
--     Server/Listener/Serving: what a session is given of it.
--   Server/Listener: the accept loop of src/server/listener.rs as a step for each of its events, with
--     the set of its sessions. Server/Listener/Spec says what it promises, without tables and cursors.
--   Run: the runs of a session. What the peers, the system and the clock do is an environment that
--     is asked anew at each moment; a session writes what it sends and whom it connects to into a
--     trace. An early return and a break are both a stop, and a guard is a scope that is left on
--     every path. Run/Moves and Run/Triples reason about all runs of a program.
--   Server/Session: src/server/session.rs. handle is split where its nested matches are: Lines (the
--     bounded reads and the two macros), Connect (up to the banner), Channel (the data channel),
--     Upload (STOR) and Loop (the select loop). Effects follows every part of a session for any
--     relation that its small changes keep; Commands, Secrecy, Accounts, Ports
--     and Slots instantiate it.
--     Accounts/Crowd has the metrics under the steps of all sessions.
--
-- Bounds and fuel: the loop of a session runs for a number of passes that every theorem quantifies
-- over, so that it holds after any prefix of a session. The search of allocate has the bound of the
-- source, the size of the range; the reading of a TLS reply has the source's 32 lines. hex is given
-- fuel above its argument. The loop of glob_match has fuel for every start that a star may take,
-- and the theorem on it shows that it never runs out. The loop over the header lines has one pass more
-- than the budget of bytes, and each pass but the last takes one of them; Server/MetricsServer/Bounds
-- counts them. The numbers of sessions and the cursor of the backends are 64 bits wide and wrap.
--
-- Not modelled: sockets, timers, TLS and DNS themselves, whose results are the environment's; the
-- reading of YAML; log output; the signals and the drain at the shutdown, and the task that waits between refreshes;
-- the steps of other sessions between those of one session, except in the models of the pool,
-- the limiter, the TLS stores and the metrics, which interleave all of them. The remaining files of src/ are listed with the
-- components.
pub mod Base
pub mod Io
pub mod Net
pub mod Protocol
pub mod Config
pub mod Metrics
pub mod Pasv
pub mod Backend
pub mod Run
pub mod Server
