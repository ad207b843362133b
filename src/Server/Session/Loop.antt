-- ===== src/Server/Session/Loop.antt =====
-- The loop of a session, one line of the client at a time, and `handle` as a whole.
use iot_ftp_upload_gateway.Base.{
  ℕ, zero, suc, ◌+◌, false, [], ◌∷◌, Option, none, some, if◌then◌else◌, Text,
}
use iot_ftp_upload_gateway.Io.{IoResult, ok, err, is_invalid_data}
use iot_ftp_upload_gateway.Net.{Ipv4Addr}
use iot_ftp_upload_gateway.Metrics.{session_started, drop_session_guard, session_idle_timed_out}
use iot_ftp_upload_gateway.Protocol.Command.{
  FtpCommand, quit, pasv, epsv, stor, unknown, parse, has_embedded_line_break,
}
use iot_ftp_upload_gateway.Protocol.Reply.{pasv_reply, epsv_reply}
use iot_ftp_upload_gateway.Pasv.PortManager.{release, allocate}
use iot_ftp_upload_gateway.Run.{
  Env, World, Run, Flow, go, control_line, idle, ◌>>=◌, ◌>>◌, pure, halt, ask, change, measure,
  scoped, write_client,
}
use iot_ftp_upload_gateway.Server.Session.Config.{
  SessionConfig, service_not_available, line_too_long, syntax_error, not_implemented,
  cannot_open_data, idle_timeout,
}
use iot_ftp_upload_gateway.Server.Session.Lines.{
  read_line_bounded, tell_client, tell_backend, backend_line, last_word, without_line_end,
}
use iot_ftp_upload_gateway.Server.Session.Connect.{unless_closed, establish}
use iot_ftp_upload_gateway.Server.Session.Upload.{store, release_port}

-- `active_pasv.take()`, and the drop of what was in it.
abbrev pub release_active : Option ℕ → World → World
release_active none w = w
release_active (some port) w = record w { active_pasv = none; pool = release port w.pool }

abbrev pub drop_active : World → World
drop_active w = release_active w.active_pasv w

abbrev pub take_active : Env → World → Flow (Option ℕ) × World
take_active env w = (go w.active_pasv, record w { active_pasv = none })

abbrev pub allocate_port : Env → World → Flow (Option ℕ) × World
allocate_port env w =
    let (port, pool) = allocate (env.can_bind w.time) w.pool in
    (go port, record w { pool = pool; time = w.time + 1 })

-- The announcement of a port. Its guard is dropped if the client cannot be told.
unfoldable pub announce : ℕ → Text → Run (Unit {0})
announce port response = do
  written ← write_client response
  elim written [
    | ok _ ↦ change λ w. record w { active_pasv = some port }
    | err kind ↦ do change (release_port port); halt
  ]

-- The `match` on what `allocate` gave.
abbrev pub tell_port : (ℕ → Text) → Option ℕ → Run (Unit {0})
tell_port response none = tell_client cannot_open_data
tell_port response (some port) = announce port (response port)

-- `PASV` and `EPSV`.
unfoldable pub passive : (ℕ → Text) → Run (Unit {0})
passive response = do change drop_active; port ← allocate_port; tell_port response port

-- Whether the session ends with the reply.
abbrev pub after_reply : FtpCommand → Run (Unit {0})
after_reply quit = halt
after_reply _ = pure tt

unfoldable pub forward : SessionConfig → FtpCommand → Text → Run (Unit {0})
forward cfg command line = do
  tell_backend line
  reply ← backend_line cfg.max_command_line_bytes
  unless_closed service_not_available reply
  tell_client reply
  after_reply command

abbrev pub store_or :
    SessionConfig → Option Ipv4Addr → Text → FtpCommand → Option ℕ → Run (Unit {0})
store_or cfg source line command none = forward cfg command line
store_or cfg source line command (some port) = store cfg source line port

unfoldable pub stor_or_forward :
    SessionConfig → Option Ipv4Addr → Text → FtpCommand → Run (Unit {0})
stor_or_forward cfg source line command = do
  port ← take_active
  store_or cfg source line command port

unfoldable pub dispatch : SessionConfig → Option Ipv4Addr → Text → FtpCommand → Run (Unit {0})
dispatch cfg source line (unknown command) = tell_client not_implemented
dispatch cfg source line pasv = passive (pasv_reply cfg.passive_address)
dispatch cfg source line epsv = passive epsv_reply
dispatch cfg source line (stor filename) = stor_or_forward cfg source line (stor filename)
dispatch cfg source line command = forward cfg command line

-- One line of the client.
unfoldable pub command_line : SessionConfig → Option Ipv4Addr → Text → Run (Unit {0})
command_line cfg source [] = halt
command_line cfg source (c ∷ s) =
    let trimmed_line = without_line_end (c ∷ s) in
    if has_embedded_line_break trimmed_line
    then tell_client syntax_error
    else dispatch cfg source (c ∷ s) (parse trimmed_line)

unfoldable pub control_result : SessionConfig → Option Ipv4Addr → IoResult Text → Run (Unit {0})
control_result cfg source (ok line) = command_line cfg source line
control_result cfg source (err kind) =
    if is_invalid_data kind then last_word line_too_long else halt

-- One pass through the `select!`.
unfoldable pub round : SessionConfig → Option Ipv4Addr → Run (Unit {0})
round cfg source = do
  event ← ask λ env t. env.client_read t
  elim event [
    | control_line read ↦
        control_result cfg source (read_line_bounded cfg.max_command_line_bytes read)
    | idle ↦ do measure session_idle_timed_out; last_word idle_timeout
  ]

-- The first `rounds` passes.
unfoldable pub rounds : SessionConfig → Option Ipv4Addr → ℕ → Run (Unit {0})
rounds cfg source zero = pure tt
rounds cfg source (suc n) = do round cfg source; rounds cfg source n

abbrev pub begin_session : World → World
begin_session w = record w {
  metrics = session_started w.metrics;
  active_pasv = none;
  secured = false;
}

-- The guards of the session's port and of its metric.
abbrev pub end_session : World → World
end_session w = record (drop_active w) { metrics = drop_session_guard w.metrics }

unfoldable pub serve : SessionConfig → ℕ → Run (Unit {0})
serve cfg n = do source ← establish cfg; rounds cfg source n

-- A session that is served for `n` lines and then ends.
unfoldable pub handle : SessionConfig → ℕ → Run (Unit {0})
handle cfg n = do change begin_session; scoped end_session (serve cfg n)
