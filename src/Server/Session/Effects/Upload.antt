-- ===== src/Server/Session/Effects/Upload.antt =====
-- The changes that an upload makes. Three relations stand for its three levels: what is left as it
-- was by every small change, what may happen within an attempt, and what an attempt comes to.
use iot_ftp_upload_gateway.Base.{ℕ, Option, Bool, true, false, Text, codes, starts_with}
use iot_ftp_upload_gateway.Io.{IoResult, ok, err}
use iot_ftp_upload_gateway.Metrics.{backend_data_connection_failed, observe_backend_io_error}
use iot_ftp_upload_gateway.Backend.Tls.{handshake_result}
use iot_ftp_upload_gateway.Run.{World, Run, ◌>>=◌, ◌>>◌, pure, ask, change, measure, scoped}
use iot_ftp_upload_gateway.Backend.Rotator.{State}
use iot_ftp_upload_gateway.Net.{Ipv4Addr}
use iot_ftp_upload_gateway.Run.Moves.{
  Order, then_moves, Moves, pure_moves, ask_moves, chain_moves, weaken,
}
use iot_ftp_upload_gateway.Server.Session.Config.{
  SessionConfig, service_not_available, transfer_aborted, cannot_open_data,
}
use iot_ftp_upload_gateway.Server.Session.Lines.{without_line_end, tell_client}
use iot_ftp_upload_gateway.Server.Session.Channel.{
  open_channel, Channel, channel, no_channel, backend_control_lost, expected_ip,
}
use iot_ftp_upload_gateway.Server.Session.Upload.{
  backend_data_tls, relay_of, count_bytes, relay_if, confirm, confirm_if, transfer, begin_upload,
  end_upload, is_refused, attempt, begin_attempt, end_attempt, with_channel,
}
use iot_ftp_upload_gateway.Server.Session.Effects.{
  Closed, OwnCommand, io_failed, data_failed, bytes_added, and_then, measure-moves,
  tell_client-moves, tell_backend-moves, last_word-moves, backend_line-moves, unless_closed-moves,
}
use iot_ftp_upload_gateway.Server.Session.Effects.Channel.{
  IsWelcome, drop_slot-moves, open_channel-moves,
}

pub record Attempts (R T Q : World → World → Type 0) : Type 0 where
  pub quiet : (u v : World) → R u v → T u v
  pub before : (u v w : World) → R u v → T v w → T u w
  pub confirmed : (u v : World) → R (confirm u) v → T u v
  pub uploaded : (u v : World) → T (begin_upload u) v → T u (end_upload v)
  pub attempted : (u v : World) → T (begin_attempt u) v → Q u (end_attempt v)
  pub settled : (u v : World) → R u v → Q u v
  pub settled_after : (u v w : World) → Q u v → R v w → Q u w

module _ {Line : Text → Type 0} {R T Q : World → World → Type 0} (cfg : SessionConfig)
    (closed : Closed OwnCommand Line (IsWelcome (expected_ip cfg)) R)
    (attempts : Attempts R T Q) where
  after_handshake :
      (x : IoResult (Unit {0}))
      → Moves R (elim x [
        | ok _ ↦ pure (ok tt)
        | err kind ↦ do
          measure backend_data_connection_failed
          measure (observe_backend_io_error kind)
          pure (err kind)
      ])
  after_handshake (ok _) = pure_moves closed.order (ok tt)
  after_handshake (err kind) = and_then closed (measure-moves closed data_failed) λ _.
      and_then closed (measure-moves closed (io_failed kind))
        λ _. pure_moves closed.order (err kind)

  by_tls :
      (b : Bool)
      → Moves {A = IoResult (Unit {0})} R (elim b [
        | false ↦ pure (ok tt)
        | true ↦ do
          answer ← ask λ env t. env.handshake t
          elim (handshake_result answer) [
            | ok _ ↦ pure (ok tt)
            | err kind ↦ do
              measure backend_data_connection_failed
              measure (observe_backend_io_error kind)
              pure (err kind)
          ]
      ])
  by_tls false = pure_moves closed.order (ok tt)
  by_tls true =
      and_then closed (ask_moves (λ env t. env.handshake t) closed.ticked)
        λ answer. after_handshake (handshake_result answer)

  backend_data_tls-moves : Moves R (backend_data_tls cfg)
  unfolding backend_data_tls
  backend_data_tls-moves = by_tls cfg.backend_tls

  count_bytes-moves : (x : IoResult (ℕ × ℕ)) → Moves R (count_bytes x)
  count_bytes-moves (ok (n, m)) = measure-moves closed (bytes_added n)
  count_bytes-moves (err kind) = pure_moves closed.order tt

  relay_if-moves : (x : IoResult (Unit {0})) → Moves R (relay_if x)
  relay_if-moves (err kind) = pure_moves closed.order tt
  relay_if-moves (ok _) = and_then closed (ask_moves relay_of closed.ticked) count_bytes-moves

  -- A run that leaves things as they were, and then one within an attempt.
  quiet_then :
      {A B : Type 0} {m : Run A} {f : A → Run B}
      → Moves R m
      → ((a : A) → Moves T (f a))
      → Moves T (m >>= f)
  quiet_then = chain_moves attempts.quiet attempts.before

  completed :
      (completion : Text) (b : Bool) → Moves T (confirm_if b >>= λ _. tell_client completion)
  completed completion true = record {
    from = λ env w.
        attempts.confirmed w _ ((tell_client-moves closed completion).from env (confirm w));
  }
  completed completion false = weaken attempts.quiet (tell_client-moves closed completion)

  transfer-moves : (backend_data : IoResult (Unit {0})) → Moves T (transfer cfg backend_data)
  unfolding transfer
  transfer-moves backend_data = quiet_then (relay_if-moves backend_data) λ _.
      quiet_then (backend_line-moves closed cfg.max_command_line_bytes) λ completion.
        quiet_then (unless_closed-moves closed transfer_aborted completion)
          λ _. completed completion (starts_with (codes "2") (without_line_end completion))

  began :
      (backend_data : IoResult (Unit {0}))
      → Moves T (change begin_upload >>= λ _. scoped end_upload (transfer cfg backend_data))
  began backend_data = record {
    from = λ env w. attempts.uploaded w _ ((transfer-moves backend_data).from env (begin_upload w));
  }

  unless_refused :
      (b : Bool)
      → Moves T (elim b [
        | true ↦ pure tt
        | false ↦ do
          backend_data ← backend_data_tls cfg
          change begin_upload
          scoped end_upload (transfer cfg backend_data)
      ])
  unless_refused true = weaken attempts.quiet (pure_moves closed.order tt)
  unless_refused false = quiet_then backend_data_tls-moves began

  pub attempt-moves : (line : Text) → Line line → Moves T (attempt cfg line)
  unfolding attempt
  attempt-moves line h = quiet_then (tell_backend-moves closed h) λ _.
      quiet_then (backend_line-moves closed cfg.max_command_line_bytes) λ reply.
        quiet_then (unless_closed-moves closed service_not_available reply) λ _.
          quiet_then (tell_client-moves closed reply) λ _. unless_refused (is_refused cfg reply)

-- For relations that do not look at the rotator.
module _ {Line : Text → Type 0} {R T Q : World → World → Type 0} (cfg : SessionConfig)
    (closed : Closed OwnCommand Line (IsWelcome (expected_ip cfg)) R) (attempts : Attempts R T Q)
    (rotated : (r : Option State) (w : World) → R w (record w { rotator = r })) where
  pub with_channel-moves :
      (line : Text) → Line line → (outcome : Channel) → Moves Q (with_channel cfg line outcome)
  unfolding with_channel
  with_channel-moves line h backend_control_lost =
      weaken attempts.settled (last_word-moves closed (Unit {0}) service_not_available)
  with_channel-moves line h no_channel =
      weaken attempts.settled (tell_client-moves closed cannot_open_data)
  with_channel-moves line h (channel source) = record {
    from = λ env w.
        attempts.settled_after w _ _
          (attempts.attempted w _
            ((attempt-moves cfg closed attempts line h).from env (begin_attempt w)))
          (drop_slot-moves cfg closed rotated source _);
  }

  -- The whole of an upload, from the client's data connection on.
  pub upload-moves :
      Order Q
      → (source : Option Ipv4Addr) (line : Text) → Line line
      → Moves Q (open_channel cfg source >>= with_channel cfg line)
  upload-moves order source line h =
      then_moves order (weaken attempts.settled (open_channel-moves cfg closed rotated source))
        (with_channel-moves line h)
