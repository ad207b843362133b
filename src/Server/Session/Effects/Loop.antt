-- ===== src/Server/Session/Effects/Loop.antt =====
-- The changes that one pass through the loop of a session makes.
use iot_ftp_upload_gateway.Base.{
  ap, ◌∙◌, ℕ, zero, suc, ◌≡◌, refl, Bool, true, false, [], ◌∷◌, Option, Text, cr, lf, Lacks,
  if◌then◌else◌,
}
use iot_ftp_upload_gateway.Io.{IoResult, ok, err, is_invalid_data}
use iot_ftp_upload_gateway.Net.{Ipv4Addr}
use iot_ftp_upload_gateway.Metrics.{session_idle_timed_out}
use iot_ftp_upload_gateway.Protocol.Command.{
  FtpCommand, user, pass, syst, type, pwd, cwd, pasv, epsv, stor, mkd, quit, noop, unknown, parse,
  has_embedded_line_break,
}
use iot_ftp_upload_gateway.Protocol.Command.Injection.{has_embedded_line_break_iff}
use iot_ftp_upload_gateway.Protocol.Reply.{pasv_reply, epsv_reply}
use iot_ftp_upload_gateway.Run.{World, Select, control_line, idle, ◌>>◌, halt, measure}
use iot_ftp_upload_gateway.Run.Moves.{
  Moves, Order, pure_moves, halt_moves, ask_moves, weaken, then_moves,
}
use iot_ftp_upload_gateway.Server.Session.Config.{
  SessionConfig, service_not_available, syntax_error, not_implemented, line_too_long, idle_timeout,
}
use iot_ftp_upload_gateway.Server.Session.Lines.{
  without_line_end, read_line_bounded, tell_client, last_word,
}
use iot_ftp_upload_gateway.Server.Session.Channel.{expected_ip}
use iot_ftp_upload_gateway.Server.Session.Loop.{
  passive, after_reply, forward, stor_or_forward, dispatch, command_line, control_result, round,
  rounds,
}
use iot_ftp_upload_gateway.Server.Session.Effects.{
  Closed, OwnCommand, idle_timed_out, and_then, measure-moves, tell_client-moves,
  tell_backend-moves, last_word-moves, backend_line-moves, unless_closed-moves,
}
use iot_ftp_upload_gateway.Server.Session.Effects.Channel.{IsWelcome}

-- The commands that are passed on as they are.
abbrev pub is_forwarded : FtpCommand → Bool
is_forwarded pasv = false
is_forwarded epsv = false
is_forwarded (unknown verb) = false
is_forwarded _ = true

-- What a line must be like to be passed on: one line, of a command that is passed on.
pub record IsClientLine (line : Text) : Type 0 where
  pub no_cr : Lacks cr (without_line_end line)
  pub no_lf : Lacks lf (without_line_end line)
  pub supported : is_forwarded (parse (without_line_end line)) ≡ true

module _ {R : World → World → Type 0} (cfg : SessionConfig)
    (closed : Closed OwnCommand IsClientLine (IsWelcome (expected_ip cfg)) R) where
  after_reply-moves : (command : FtpCommand) → Moves R (after_reply command)
  after_reply-moves quit = halt_moves closed.order _
  after_reply-moves (user a) = pure_moves closed.order tt
  after_reply-moves (pass a) = pure_moves closed.order tt
  after_reply-moves syst = pure_moves closed.order tt
  after_reply-moves (type a) = pure_moves closed.order tt
  after_reply-moves pwd = pure_moves closed.order tt
  after_reply-moves (cwd a) = pure_moves closed.order tt
  after_reply-moves pasv = pure_moves closed.order tt
  after_reply-moves epsv = pure_moves closed.order tt
  after_reply-moves (stor a) = pure_moves closed.order tt
  after_reply-moves (mkd a) = pure_moves closed.order tt
  after_reply-moves noop = pure_moves closed.order tt
  after_reply-moves (unknown a) = pure_moves closed.order tt

  pub forward-moves :
      (command : FtpCommand) (line : Text) → IsClientLine line → Moves R (forward cfg command line)
  unfolding forward
  forward-moves command line h = and_then closed (tell_backend-moves closed h) λ _.
      and_then closed (backend_line-moves closed cfg.max_command_line_bytes) λ reply.
        and_then closed (unless_closed-moves closed service_not_available reply)
          λ _. and_then closed (tell_client-moves closed reply) λ _. after_reply-moves command

-- The loop, for a relation that `PASV` and `STOR` keep.
module _ {R Q : World → World → Type 0} (cfg : SessionConfig) (source : Option Ipv4Addr)
    (closed : Closed OwnCommand IsClientLine (IsWelcome (expected_ip cfg)) R) (order : Order Q)
    (settled : (u v : World) → R u v → Q u v)
    (passive-moves : (response : ℕ → Text) → Moves Q (passive response))
    (stor_or_forward-moves : (line : Text) (command : FtpCommand)
      → IsClientLine line
      → Moves Q (stor_or_forward cfg source line command)) where
  passed_on :
      (line : Text) (command : FtpCommand)
      → has_embedded_line_break (without_line_end line) ≡ false
      → parse (without_line_end line) ≡ command
      → is_forwarded command ≡ true
      → IsClientLine line
  passed_on line command h e forwarded =
      let lacks = (has_embedded_line_break_iff (without_line_end line)).0 h in
      record { no_cr = lacks.0; no_lf = lacks.1; supported = ap is_forwarded e ∙ forwarded }

  forwarding :
      (line : Text) (command : FtpCommand) → IsClientLine line → Moves Q (forward cfg command line)
  forwarding line command h = weaken settled (forward-moves cfg closed command line h)

  dispatch-moves :
      (line : Text) (command : FtpCommand)
      → has_embedded_line_break (without_line_end line) ≡ false
      → parse (without_line_end line) ≡ command
      → Moves Q (dispatch cfg source line command)
  unfolding dispatch
  dispatch-moves line (unknown verb) h e = weaken settled (tell_client-moves closed not_implemented)
  dispatch-moves line pasv h e = passive-moves (pasv_reply cfg.passive_address)
  dispatch-moves line epsv h e = passive-moves epsv_reply
  dispatch-moves line (stor filename) h e =
      stor_or_forward-moves line (stor filename) (passed_on line (stor filename) h e refl)
  dispatch-moves line (user a) h e = forwarding line (user a) (passed_on line (user a) h e refl)
  dispatch-moves line (pass a) h e = forwarding line (pass a) (passed_on line (pass a) h e refl)
  dispatch-moves line syst h e = forwarding line syst (passed_on line syst h e refl)
  dispatch-moves line (type a) h e = forwarding line (type a) (passed_on line (type a) h e refl)
  dispatch-moves line pwd h e = forwarding line pwd (passed_on line pwd h e refl)
  dispatch-moves line (cwd a) h e = forwarding line (cwd a) (passed_on line (cwd a) h e refl)
  dispatch-moves line (mkd a) h e = forwarding line (mkd a) (passed_on line (mkd a) h e refl)
  dispatch-moves line quit h e = forwarding line quit (passed_on line quit h e refl)
  dispatch-moves line noop h e = forwarding line noop (passed_on line noop h e refl)

  unless_broken :
      (line : Text) (b : Bool)
      → has_embedded_line_break (without_line_end line) ≡ b
      → Moves Q (
          if b
          then tell_client syntax_error
          else dispatch cfg source line (parse (without_line_end line)))
  unless_broken line true h = weaken settled (tell_client-moves closed syntax_error)
  unless_broken line false h = dispatch-moves line (parse (without_line_end line)) h refl

  command_line-moves : (line : Text) → Moves Q (command_line cfg source line)
  unfolding command_line
  command_line-moves [] = halt_moves order _
  command_line-moves (c ∷ s) =
      unless_broken (c ∷ s) (has_embedded_line_break (without_line_end (c ∷ s))) refl

  if_invalid : (b : Bool) → Moves {A = Unit {0}} Q (if b then last_word line_too_long else halt)
  if_invalid true = weaken settled (last_word-moves closed (Unit {0}) line_too_long)
  if_invalid false = halt_moves order _

  control_result-moves : (x : IoResult Text) → Moves Q (control_result cfg source x)
  unfolding control_result
  control_result-moves (ok line) = command_line-moves line
  control_result-moves (err kind) = if_invalid (is_invalid_data kind)

  after_event :
      (event : Select)
      → Moves {A = Unit {0}} Q (elim event [
        | control_line read ↦
            control_result cfg source (read_line_bounded cfg.max_command_line_bytes read)
        | idle ↦ do measure session_idle_timed_out; last_word idle_timeout
      ])
  after_event (control_line read) =
      control_result-moves (read_line_bounded cfg.max_command_line_bytes read)
  after_event idle = weaken settled (
      and_then closed (measure-moves closed idle_timed_out)
        λ _. last_word-moves closed (Unit {0}) idle_timeout)

  round-moves : Moves Q (round cfg source)
  unfolding round
  round-moves =
      then_moves order (weaken settled (ask_moves (λ env t. env.client_read t) closed.ticked))
        after_event

  pub rounds-moves : (n : ℕ) → Moves Q (rounds cfg source n)
  unfolding rounds
  rounds-moves zero = pure_moves order tt
  rounds-moves (suc n) = then_moves order round-moves λ _. rounds-moves n
