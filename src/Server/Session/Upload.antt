-- ===== src/Server/Session/Upload.antt =====
-- `STOR` with a passive port: the transfer of one file, from the data channel to the backend's
-- completion reply. The guards of the port, the slot and the two metrics are scopes.
use iot_ftp_upload_gateway.Base.{ℕ, Bool, true, false, not, ◌&&◌, Option, Text, codes, starts_with}
use iot_ftp_upload_gateway.Io.{IoResult, ok, err}
use iot_ftp_upload_gateway.Net.{Ipv4Addr}
use iot_ftp_upload_gateway.Metrics.{
  upload_attempted, drop_upload_attempt, upload_started, drop_upload_guard, add_upload_bytes,
  succeeded, backend_data_connection_failed, observe_backend_io_error,
}
use iot_ftp_upload_gateway.Pasv.PortManager.{release}
use iot_ftp_upload_gateway.Pasv.Relay.Copy.{relay_bidirectional}
use iot_ftp_upload_gateway.Backend.Tls.{handshake_result}
use iot_ftp_upload_gateway.Run.{Env, World, Run, ◌>>=◌, ◌>>◌, pure, ask, change, measure, scoped}
use iot_ftp_upload_gateway.Server.Session.Config.{
  SessionConfig, service_not_available, transfer_aborted, cannot_open_data,
}
use iot_ftp_upload_gateway.Server.Session.Lines.{
  tell_client, tell_backend, backend_line, last_word, without_line_end,
}
use iot_ftp_upload_gateway.Server.Session.Connect.{unless_closed}
use iot_ftp_upload_gateway.Server.Session.Channel.{
  Channel, channel, no_channel, backend_control_lost, open_channel, drop_slot,
}

-- The data connection's handshake, where TLS is on, and its metrics.
unfoldable pub backend_data_tls : SessionConfig → Run (IoResult (Unit {0}))
backend_data_tls cfg = elim cfg.backend_tls [
  | false ↦ pure (ok tt)
  | true ↦ do
    answer ← ask λ env t. env.handshake t
    elim (handshake_result answer) [
      | ok _ ↦ pure (ok tt)
      | err kind ↦ do
        measure backend_data_connection_failed
        measure (observe_backend_io_error kind)
        pure (err kind)
    ]
]

abbrev pub relay_of : Env → ℕ → IoResult (ℕ × ℕ)
relay_of env t = relay_bidirectional (env.upload_first t) (env.upload t) (env.download t)

abbrev pub count_bytes : IoResult (ℕ × ℕ) → Run (Unit {0})
count_bytes (ok (bytes_uploaded, _)) = measure (add_upload_bytes bytes_uploaded)
count_bytes (err kind) = pure tt

abbrev pub relay_if : IoResult (Unit {0}) → Run (Unit {0})
relay_if (err kind) = pure tt
relay_if (ok _) = do result ← ask relay_of; count_bytes result

-- `upload_attempt.succeeded()`; the attempt is spent.
abbrev pub confirm : World → World
confirm w = record w { metrics = succeeded w.metrics; upload_confirmed = true }

abbrev pub confirm_if : Bool → Run (Unit {0})
confirm_if true = change confirm
confirm_if false = pure tt

-- From the relay of the bytes to the completion reply.
unfoldable pub transfer : SessionConfig → IoResult (Unit {0}) → Run (Unit {0})
transfer cfg backend_data = do
  relay_if backend_data
  completion ← backend_line cfg.max_command_line_bytes
  unless_closed transfer_aborted completion
  confirm_if (starts_with (codes "2") (without_line_end completion))
  tell_client completion

abbrev pub begin_upload : World → World
begin_upload w = record w { metrics = upload_started w.metrics }

abbrev pub end_upload : World → World
end_upload w = record w { metrics = drop_upload_guard w.metrics }

-- The backend's refusal of the transfer, where TLS is on, was its final reply.
abbrev pub is_refused : SessionConfig → Text → Bool
is_refused cfg reply = cfg.backend_tls && not (starts_with (codes "1") reply)

-- The transfer command, its reply, and the transfer.
unfoldable pub attempt : SessionConfig → Text → Run (Unit {0})
attempt cfg line = do
  tell_backend line
  reply ← backend_line cfg.max_command_line_bytes
  unless_closed service_not_available reply
  tell_client reply
  elim (is_refused cfg reply) [
    | true ↦ pure tt
    | false ↦ do
      backend_data ← backend_data_tls cfg
      change begin_upload
      scoped end_upload (transfer cfg backend_data)
  ]

abbrev pub begin_attempt : World → World
begin_attempt w = record w { metrics = upload_attempted w.metrics; upload_confirmed = false }

abbrev pub end_attempt : World → World
end_attempt w = record w { metrics = drop_upload_attempt w.upload_confirmed w.metrics }

unfoldable pub with_channel : SessionConfig → Text → Channel → Run (Unit {0})
with_channel cfg line backend_control_lost = last_word service_not_available
with_channel cfg line no_channel = tell_client cannot_open_data
with_channel cfg line (channel source) =
    scoped (drop_slot cfg source) do change begin_attempt; scoped end_attempt (attempt cfg line)

abbrev pub release_port : ℕ → World → World
release_port port w = record w { pool = release port w.pool }

-- The guard of the port was taken out of the session, and lives to the end.
unfoldable pub store : SessionConfig → Option Ipv4Addr → Text → ℕ → Run (Unit {0})
store cfg source line port =
    scoped (release_port port) do outcome ← open_channel cfg source; with_channel cfg line outcome
