-- ===== src/Server/Session/Ports/Session.antt =====
-- A whole session keeps the account of its passive port.
use iot_ftp_upload_gateway.Base.{
  ℕ, ◌+◌, ◌^◌, ◌≤◌, ◌<◌, ◌≡◌, refl, sym, ap, ◌∙◌, false, List, ◌∷◌, Option, none, some, Text, arith,
  contains,
}
use iot_ftp_upload_gateway.Io.{IoResult, ok, err}
use iot_ftp_upload_gateway.Net.{Ipv4Addr}
use iot_ftp_upload_gateway.Protocol.Command.{FtpCommand}
use iot_ftp_upload_gateway.Pasv.PortManager.{PortRange, PortManager, allocate}
use iot_ftp_upload_gateway.Pasv.PortManager.Search.{Outcome, allocate-Outcome_within}
use iot_ftp_upload_gateway.Run.{Env, World, ◌>>=◌, ◌>>◌, change, halt}
use iot_ftp_upload_gateway.Run.Moves.{Order, Moves, change_moves, then_moves, weaken}
use iot_ftp_upload_gateway.Server.Session.Config.{SessionConfig, cannot_open_data}
use iot_ftp_upload_gateway.Server.Session.Channel.{open_channel}
use iot_ftp_upload_gateway.Server.Session.Upload.{store, release_port, with_channel}
use iot_ftp_upload_gateway.Server.Session.Loop.{
  handle, begin_session, end_session, serve, drop_active, announce, tell_port, store_or, passive,
  stor_or_forward,
}
use iot_ftp_upload_gateway.Server.Session.Effects.{tell_client-moves}
use iot_ftp_upload_gateway.Server.Session.Effects.Start.{establish-moves}
use iot_ftp_upload_gateway.Server.Session.Effects.Upload.{upload-moves}
use iot_ftp_upload_gateway.Server.Session.Effects.Loop.{IsClientLine, forward-moves, rounds-moves}
use iot_ftp_upload_gateway.Server.Session.Ports.{
  Same, closed, attempts, Free, Owns, free, owned, KeepsOwns, Owns-same, released, drop_active-Free,
}

module _ (range : PortRange) (base : List ℕ) (ordered : range.start ≤ range.end)
    (u16_end : range.end < 2 ^ 16) where
  order : Order (KeepsOwns range base)
  unfolding KeepsOwns
  order = record { same = λ w h. h; both = λ f g h. g (f h) }

  settled : (u v : World) → Same u v → (KeepsOwns range base) u v
  unfolding KeepsOwns
  settled = Owns-same range base

  -- From a session without a port to one with the port `p`, or to one that may have a port.
  Grants : ℕ → World → World → Type 0
  Grants p u v =
      u.active_pasv ≡ none
      → contains p base ≡ false
      → u.pool.in_use ≡ p ∷ base
      → u.pool.range ≡ range
      → Owns range base v

  announced :
      (p : ℕ) (x : IoResult (Unit {0}))
      → Moves (Grants p) (elim x [
        | ok _ ↦ change λ w. record w { active_pasv = some p }
        | err kind ↦ do change (release_port p); halt
      ])
  unfolding Grants
  announced p (ok _) =
      change_moves _
        λ w a f i r. owned p (record { active = refl; fresh = f; in_use_eq = i; range_eq = r })
  announced p (err kind) = record {
    from = λ env w a f i r.
        free
          (record { no_port = a; others = released range base p w.pool.in_use f i; range_eq = r });
  }

  announce-Owns :
      (p : ℕ) (response : Text) (env : Env) (w : World) → Grants p w (announce p response env w).1
  unfolding announce Grants
  announce-Owns p response env w a f i r =
      (announced p (env.client_write w.time)).from env _ a f i r

  -- What `allocate` gave is announced, or the client is told that there is nothing.
  granted :
      (cfg : SessionConfig) (response : ℕ → Text) (env : Env) (w : World) (time : ℕ)
      (port : Option ℕ) (m : PortManager)
      → Free range base w
      → Outcome w.pool (port, m)
      → Owns range base (tell_port response port env (record w { pool = m; time = time })).1
  unfolding Grants
  granted cfg response env w time (some p) m f o =
      announce-Owns p (response p) env (record w { pool = m; time = time }) f.no_port
        (ap (contains p) (sym f.others) ∙ o.2) (o.3 ∙ ap (λ (xs : List ℕ). p ∷ xs) f.others)
        (o.4 ∙ f.range_eq)
  granted cfg response env w time none m f o =
      Owns-same range base _ _
        ((tell_client-moves (closed cfg) cannot_open_data).from env
          (record w { pool = m; time = time }))
        (free
          (record { no_port = f.no_port; others = o.0 ∙ f.others; range_eq = o.1 ∙ f.range_eq }))

  within :
      (m : PortManager) → m.range ≡ range → (m.range.start ≤ m.range.end) × (m.range.end < 2 ^ 16)
  within m e = rw (e) (ordered, u16_end)

  passive-Owns :
      (cfg : SessionConfig) (response : ℕ → Text) → Moves (KeepsOwns range base) (passive response)
  unfolding passive KeepsOwns
  passive-Owns cfg response = record {
    from = λ env w h.
        let u = drop_active w in
        let f = drop_active-Free range base w h in
        let (o, e) = within u.pool f.range_eq in
        granted cfg response env u (u.time + 1) (allocate (env.can_bind u.time) u.pool).0
          (allocate (env.can_bind u.time) u.pool).1 f
          (allocate-Outcome_within (env.can_bind u.time) u.pool o e);
  }

  -- The body of an upload leaves the ports alone, and its scope gives the port back.
  store-Same :
      (cfg : SessionConfig) (source : Option Ipv4Addr) (line : Text)
      → IsClientLine line
      → Moves Same (open_channel cfg source >>= with_channel cfg line)
  store-Same cfg source line h =
      upload-moves cfg (closed cfg) attempts (λ r w. record { pool_eq = refl; active_eq = refl })
        (closed cfg).order source line h

  stored :
      (p : ℕ) (u v : World)
      → Same u v
      → u.active_pasv ≡ none
      → contains p base ≡ false
      → u.pool.in_use ≡ p ∷ base
      → u.pool.range ≡ range
      → Owns range base (release_port p v)
  stored p u v h a f i r = free (record {
    no_port = h.active_eq ∙ a;
    others =
        released range base p v.pool.in_use f (ap (λ (m : PortManager). m.in_use) h.pool_eq ∙ i);
    range_eq = ap (λ (m : PortManager). m.range) h.pool_eq ∙ r;
  })

  Free-of_none :
      (w : World)
      → w.active_pasv ≡ none
      → Owns range base w
      → Free range base (record w { active_pasv = none })
  Free-of_none w e (free f) = record { no_port = refl; others = f.others; range_eq = f.range_eq }
  Free-of_none w e (owned p o) = absurd_port p w.active_pasv e o.active
    where
      absurd_port :
          (p : ℕ) (active : Option ℕ)
          → active ≡ none
          → active ≡ some p
          → Free range base (record w { active_pasv = none })
      absurd_port p active e k = cc

  taken :
      (cfg : SessionConfig) (source : Option Ipv4Addr) (line : Text) (command : FtpCommand)
      → IsClientLine line
      → (active : Option ℕ) (env : Env) (w : World) → w.active_pasv ≡ active
      → Owns range base w
      → Owns range base
          (store_or cfg source line command active env (record w { active_pasv = none })).1
  unfolding store
  taken cfg source line command h none env w e o =
      Owns-same range base _ _
        ((forward-moves cfg (closed cfg) command line h).from env (record w { active_pasv = none }))
        (free (Free-of_none w e o))
  taken cfg source line command h (some p) env w e (free f) = absurd_none (sym e ∙ f.no_port)
    where
      absurd_none : {A : Type 0} → some p ≡ none → A
      absurd_none k = cc
  taken cfg source line command h (some p) env w e (owned q o) =
      stored p _ _ ((store-Same cfg source line h).from env (record w { active_pasv = none })) refl
        (ground (arith, o.fresh)) (ground (arith, o.in_use_eq)) o.range_eq

  stor_or_forward-Owns :
      (cfg : SessionConfig) (source : Option Ipv4Addr) (line : Text) (command : FtpCommand)
      → IsClientLine line
      → Moves (KeepsOwns range base) (stor_or_forward cfg source line command)
  unfolding stor_or_forward KeepsOwns
  stor_or_forward-Owns cfg source line command h = record {
    from = λ env w o. taken cfg source line command h w.active_pasv env w refl o;
  }

  serve-Owns : (cfg : SessionConfig) (n : ℕ) → Moves (KeepsOwns range base) (serve cfg n)
  unfolding serve
  serve-Owns cfg n = then_moves order (weaken settled (establish-moves (closed cfg) cfg)) λ source.
      rounds-moves cfg source (closed cfg) order settled (passive-Owns cfg)
        (stor_or_forward-Owns cfg source) n

  ended : (v : World) → Owns range base v → (end_session v).pool.in_use ≡ base
  ended v o = (drop_active-Free range base v o).others

-- However a session goes and ends, the set of ports in use is afterwards what it was before.
pub handle-in_use :
    (cfg : SessionConfig) (n : ℕ) (env : Env) (w : World)
    → w.pool.range.start ≤ w.pool.range.end
    → w.pool.range.end < 2 ^ 16
    → (handle cfg n env w).1.pool.in_use ≡ w.pool.in_use
unfolding handle KeepsOwns
handle-in_use cfg n env w ordered u16_end = ended w.pool.range w.pool.in_use ordered u16_end _ (
    (serve-Owns w.pool.range w.pool.in_use ordered u16_end cfg n).from env (begin_session w)
      (free (record { no_port = refl; others = refl; range_eq = refl })))
