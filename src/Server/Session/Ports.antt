-- ===== src/Server/Session/Ports.antt =====
-- The passive port of a session: at most one is in use at a time, and the session gives each back.
pub mod Session
use iot_ftp_upload_gateway.Base.{
  ℕ, zero, suc, ◌+◌, ◌^◌, ◌≤◌, ◌<◌, ◌≡◌, refl, sym, ap, ◌∙◌, Bool, true, false, List, [], ◌∷◌,
  Option, none, some, Text, arith, contains, remove, remove-cons, ◌⊎◌, inl, inr, if◌then◌else◌,
}
use iot_ftp_upload_gateway.Io.{ErrorKind, IoResult, ok, err}
use iot_ftp_upload_gateway.Net.{Ipv4Addr}
use iot_ftp_upload_gateway.Pasv.PortManager.{PortRange, PortManager, release, allocate}
use iot_ftp_upload_gateway.Pasv.PortManager.Search.{Outcome, allocate-Outcome_within}
use iot_ftp_upload_gateway.Run.{Env, World, Run, ◌>>=◌, ◌>>◌, change, halt, write_client}
use iot_ftp_upload_gateway.Run.Moves.{
  Order, Moves, chain_moves, change_moves, halt_moves, scoped_moves, then_moves, weaken,
}
use iot_ftp_upload_gateway.Server.Session.Config.{SessionConfig, cannot_open_data}
use iot_ftp_upload_gateway.Server.Session.Lines.{tell_client}
use iot_ftp_upload_gateway.Server.Session.Channel.{Channel, expected_ip, open_channel}
use iot_ftp_upload_gateway.Server.Session.Upload.{store, release_port, with_channel}
use iot_ftp_upload_gateway.Server.Session.Loop.{
  handle, begin_session, end_session, serve, release_active, drop_active, take_active,
  allocate_port, announce, passive, stor_or_forward, forward,
}
use iot_ftp_upload_gateway.Server.Session.Effects.{
  Closed, OwnCommand, and_then, tell_client-moves, write_client-moves,
}
use iot_ftp_upload_gateway.Server.Session.Effects.Start.{establish-moves}
use iot_ftp_upload_gateway.Server.Session.Effects.Channel.{IsWelcome, open_channel-moves}
use iot_ftp_upload_gateway.Server.Session.Effects.Upload.{Attempts, with_channel-moves}
use iot_ftp_upload_gateway.Server.Session.Effects.Loop.{IsClientLine, forward-moves, rounds-moves}

-- A change that leaves the ports alone.
pub record Same (u v : World) : Type 0 where
  pub pool_eq : v.pool ≡ u.pool
  pub active_eq : v.active_pasv ≡ u.active_pasv

abbrev unchanged : {w : World} → Same w w
unchanged = record { pool_eq = refl; active_eq = refl }

both_same : {u v w : World} → Same u v → Same v w → Same u w
both_same h k = record { pool_eq = k.pool_eq ∙ h.pool_eq; active_eq = k.active_eq ∙ h.active_eq }

pub closed :
    (cfg : SessionConfig) → Closed OwnCommand IsClientLine (IsWelcome (expected_ip cfg)) Same
closed cfg = record {
  order = record { same = λ w. record { pool_eq = refl; active_eq = refl }; both = both_same };
  ticked = λ w. record { pool_eq = refl; active_eq = refl };
  told = λ text w. record { pool_eq = refl; active_eq = refl };
  sent = λ own w. record { pool_eq = refl; active_eq = refl };
  forwarded = λ line w. record { pool_eq = refl; active_eq = refl };
  met = λ welcome w. record { pool_eq = refl; active_eq = refl };
  reached = λ addr w. record { pool_eq = refl; active_eq = refl };
  observed = λ o w. record { pool_eq = refl; active_eq = refl };
  blamed = λ source kind now w. record { pool_eq = refl; active_eq = refl };
  made_secure = λ w. record { pool_eq = refl; active_eq = refl };
}

pub attempts : Attempts Same Same Same
attempts = record {
  quiet = λ u v h. h;
  before = λ u v w h k. both_same h k;
  confirmed = λ u v h. record { pool_eq = h.pool_eq; active_eq = h.active_eq };
  uploaded = λ u v h. record { pool_eq = h.pool_eq; active_eq = h.active_eq };
  attempted = λ u v h. record { pool_eq = h.pool_eq; active_eq = h.active_eq };
  settled = λ u v h. h;
  settled_after = λ u v w h k. both_same h k;
}

-- The ports of the others are `base`; the session has none.
pub record Free (range : PortRange) (base : List ℕ) (w : World) : Type 0 where
  pub no_port : w.active_pasv ≡ none
  pub others : w.pool.in_use ≡ base
  pub range_eq : w.pool.range ≡ range

-- The session has the port `p`, which none of the others has.
pub record Owned (range : PortRange) (base : List ℕ) (p : ℕ) (w : World) : Type 0 where
  pub active : w.active_pasv ≡ some p
  pub fresh : contains p base ≡ false
  pub in_use_eq : w.pool.in_use ≡ p ∷ base
  pub range_eq : w.pool.range ≡ range

pub data Owns (range : PortRange) (base : List ℕ) (w : World) : Type 0 where
  free : Free range base w → Owns range base w
  owned : (p : ℕ) → Owned range base p w → Owns range base w

module _ (range : PortRange) (base : List ℕ) where
  pub KeepsOwns : World → World → Type 0
  KeepsOwns u v = Owns range base u → Owns range base v

  pub Free-same : {u v : World} → Same u v → Free range base u → Free range base v
  Free-same h f = record {
    no_port = h.active_eq ∙ f.no_port;
    others = ap (λ (m : PortManager). m.in_use) h.pool_eq ∙ f.others;
    range_eq = ap (λ (m : PortManager). m.range) h.pool_eq ∙ f.range_eq;
  }

  pub Owns-same : (u v : World) → Same u v → Owns range base u → Owns range base v
  Owns-same u v h (free f) = free (Free-same h f)
  Owns-same u v h (owned p o) = owned p (record {
    active = h.active_eq ∙ o.active;
    fresh = o.fresh;
    in_use_eq = ap (λ (m : PortManager). m.in_use) h.pool_eq ∙ o.in_use_eq;
    range_eq = ap (λ (m : PortManager). m.range) h.pool_eq ∙ o.range_eq;
  })

  pub released :
      (p : ℕ) (xs : List ℕ) → contains p base ≡ false → xs ≡ p ∷ base → remove p xs ≡ base
  released p xs h e = ap (remove p) e ∙ remove-cons p base h

  release-Owned :
      (p : ℕ) (active : Option ℕ) (w : World)
      → active ≡ some p
      → Owned range base p w
      → Free range base (release_active active w)
  release-Owned p none w e o = cc
  release-Owned p (some q) w e o = record {
    no_port = refl;
    others = released q w.pool.in_use (ground arith) (ground arith);
    range_eq = o.range_eq;
  }

  release_none :
      (active : Option ℕ) (w : World)
      → active ≡ none
      → Free range base w
      → Free range base (release_active active w)
  release_none none w e f = f
  release_none (some q) w e f = cc

  pub drop_active-Free : (w : World) → Owns range base w → Free range base (drop_active w)
  drop_active-Free w (owned p o) = release-Owned p w.active_pasv w o.active o
  drop_active-Free w (free f) = release_none w.active_pasv w f.no_port f
