-- ===== src/Server/Session/Effects/Whole.antt =====
-- The changes that a whole session makes, for a relation that does not look at the pool.
use iot_ftp_upload_gateway.Base.{ℕ, Option, none, some, Text}
use iot_ftp_upload_gateway.Io.{IoResult, ok, err}
use iot_ftp_upload_gateway.Net.{Ipv4Addr}
use iot_ftp_upload_gateway.Protocol.Command.{FtpCommand}
use iot_ftp_upload_gateway.Pasv.PortManager.{PortManager, release, allocate}
use iot_ftp_upload_gateway.Run.{World, ◌>>=◌, ◌>>◌, halt, change}
use iot_ftp_upload_gateway.Run.Moves.{
  Moves, Order, halt_moves, change_moves, scoped_moves, weaken, then_moves,
}
use iot_ftp_upload_gateway.Server.Session.Config.{SessionConfig, cannot_open_data}
use iot_ftp_upload_gateway.Server.Session.Channel.{open_channel, expected_ip}
use iot_ftp_upload_gateway.Server.Session.Upload.{store, with_channel, release_port}
use iot_ftp_upload_gateway.Server.Session.Loop.{
  release_active, take_active, allocate_port, announce, tell_port, store_or, passive,
  stor_or_forward, rounds, serve,
}
use iot_ftp_upload_gateway.Server.Session.Effects.{
  Closed, OwnCommand, tell_client-moves, write_client-moves,
}
use iot_ftp_upload_gateway.Server.Session.Effects.Start.{establish-moves}
use iot_ftp_upload_gateway.Server.Session.Effects.Channel.{IsWelcome}
use iot_ftp_upload_gateway.Server.Session.Effects.Loop.{forward-moves, rounds-moves, IsClientLine}

-- The loop, for a relation that does not look at the pool.
module _ {R Q : World → World → Type 0} (cfg : SessionConfig)
    (closed : Closed OwnCommand IsClientLine (IsWelcome (expected_ip cfg)) R) (order : Order Q)
    (settled : (u v : World) → R u v → Q u v)
    (pooled : (active : Option ℕ) (pool : PortManager) (w : World)
      → Q w (record w { active_pasv = active; pool = pool }))
    (upload-keeps : (source : Option Ipv4Addr) (line : Text)
      → IsClientLine line
      → Moves Q (open_channel cfg source >>= with_channel cfg line)) where
  release_active-keeps : (active : Option ℕ) (w : World) → Q w (release_active active w)
  release_active-keeps none w = order.same w
  release_active-keeps (some port) w = pooled none (release port w.pool) w

  announced :
      (port : ℕ) (x : IoResult (Unit {0}))
      → Moves Q (elim x [
        | ok _ ↦ change λ w. record w { active_pasv = some port }
        | err kind ↦ do change (release_port port); halt
      ])
  announced port (ok _) = change_moves _ λ w. pooled (some port) w.pool w
  announced port (err kind) =
      then_moves order (change_moves _ λ w. pooled w.active_pasv (release port w.pool) w)
        λ _. halt_moves order _

  after_allocate : (response : ℕ → Text) (port : Option ℕ) → Moves Q (tell_port response port)
  unfolding announce
  after_allocate response (some p) =
      then_moves order (weaken settled (write_client-moves closed (response p))) (announced p)
  after_allocate response none = weaken settled (tell_client-moves closed cannot_open_data)

  allocate_port-moves : Moves Q allocate_port
  allocate_port-moves = record {
    from = λ env w.
        order.both (pooled w.active_pasv (allocate (env.can_bind w.time) w.pool).1 w)
          (settled _ _ (closed.ticked _));
  }

  passive-keeps : (response : ℕ → Text) → Moves Q (passive response)
  unfolding passive
  passive-keeps response =
      then_moves order (change_moves _ λ w. release_active-keeps w.active_pasv w)
        λ _. then_moves order allocate_port-moves (after_allocate response)

  store-keeps :
      (source : Option Ipv4Addr) (line : Text) (port : ℕ)
      → IsClientLine line
      → Moves Q (store cfg source line port)
  unfolding store
  store-keeps source line port h =
      scoped_moves (release_port port) (upload-keeps source line h)
        λ w v k. order.both k (pooled v.active_pasv (release port v.pool) v)

  after_take :
      (source : Option Ipv4Addr) (line : Text) (command : FtpCommand)
      → IsClientLine line
      → (port : Option ℕ) → Moves Q (store_or cfg source line command port)
  after_take source line command h (some p) = store-keeps source line p h
  after_take source line command h none = weaken settled (forward-moves cfg closed command line h)

  stor_or_forward-keeps :
      (source : Option Ipv4Addr) (line : Text) (command : FtpCommand)
      → IsClientLine line
      → Moves Q (stor_or_forward cfg source line command)
  unfolding stor_or_forward
  stor_or_forward-keeps source line command h =
      then_moves order take-moves (after_take source line command h)
    where
      take-moves : Moves Q take_active
      take-moves = record { from = λ env w. pooled none w.pool w }

  pub loop-moves : (source : Option Ipv4Addr) (n : ℕ) → Moves Q (rounds cfg source n)
  loop-moves source n =
      rounds-moves cfg source closed order settled passive-keeps (stor_or_forward-keeps source) n

  pub serve-moves : (n : ℕ) → Moves Q (serve cfg n)
  unfolding serve
  serve-moves n =
      then_moves order (weaken settled (establish-moves closed cfg)) λ source. loop-moves source n
