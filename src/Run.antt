-- ===== src/Run.antt =====
-- How a session runs: what the peers, the system and the clock do is an environment, asked anew at
-- each moment, and what the session does is written to a trace. An early `return` and a `break` out
-- of the session's loop are both `stop`; a guard that is dropped on every path is `scoped`.
pub mod Moves
pub mod Triples
use iot_ftp_upload_gateway.Base.{
  ℕ, ◌+◌, ◌≡◌, refl, Bool, true, false, List, [], ◌∷◌, Option, none, some, Text,
}
use iot_ftp_upload_gateway.Io.{IoResult, Timed, ErrorKind}
use iot_ftp_upload_gateway.Net.{Ipv4Addr, SocketAddr}
use iot_ftp_upload_gateway.Metrics.{Metrics}
use iot_ftp_upload_gateway.Pasv.PortManager.{PortManager}
use iot_ftp_upload_gateway.Backend.Rotator.{State, Wait}

-- The `select!` of the session's loop: the client's line as far as it was read, or the idle timer.
pub data Select : Type 0 where
  control_line : IoResult Text → Select
  idle : Select

-- One turn of a copy loop: how the read ended, and how the write of those bytes, or the shutdown
-- after the last of them, ended; or silence until the timer.
pub data CopyEvent : Type 0 where
  turn : IoResult ℕ → IoResult (Unit {0}) → CopyEvent
  silence : CopyEvent

-- Answers at each moment.
pub record Env : Type 0 where
  pub client_read : ℕ → Select
  pub client_write : ℕ → IoResult (Unit {0})
  pub backend_read : ℕ → Timed (IoResult Text)
  pub backend_write : ℕ → IoResult (Unit {0})
  pub timed_write : ℕ → Timed (IoResult (Unit {0}))
  -- who connects to the announced port until the wait is over
  pub accepts : ℕ → List (IoResult SocketAddr)
  pub can_bind : ℕ → ℕ → ℕ → Bool
  pub connect : ℕ → Timed (IoResult (Unit {0}))
  pub handshake : ℕ → Timed (IoResult (Unit {0}))
  -- whether bytes wait in the read buffer
  pub buffered : ℕ → Bool
  pub control_peer : Option SocketAddr
  pub slot_wait : ℕ → Wait
  pub now : ℕ → ℕ
  -- the two directions of a transfer, and whether the first one's end comes first
  pub upload : ℕ → List CopyEvent
  pub download : ℕ → List CopyEvent
  pub upload_first : ℕ → Bool

-- What others see of the session. A text to the backend is marked by whether TLS protects it.
pub data Event : Type 0 where
  to_client : Text → Event
  to_backend : Bool → Text → Event
  data_accepted : SocketAddr → Event
  data_connected : SocketAddr → Event

pub record World : Type 0 where
  pub time : ℕ
  pub trace : List Event
  pub secured : Bool
  pub metrics : Metrics
  pub pool : PortManager
  pub rotator : Option State
  pub active_pasv : Option ℕ
  pub upload_confirmed : Bool

pub data Flow (A : Type 0) : Type 0 where
  go : A → Flow A
  stop : Flow A

abbrev pub Run : Type 0 → Type 0
Run A = Env → World → Flow A × World

abbrev pub after : {A B : Type 0} → Flow A × World → (A → World → Flow B × World) → Flow B × World
after (go a, w) k = k a w
after (stop, w) k = (stop, w)

infixl 5 ◌>>=◌ ◌>>◌
abbrev pub ◌>>=◌ : {A B : Type 0} → Run A → (A → Run B) → Run B
◌>>=◌ m f env w = after (m env w) (λ a w'. f a env w')

abbrev pub ◌>>◌ : {B : Type 0} → Run (Unit {0}) → Run B → Run B
m >> k = m >>= λ _. k

abbrev pub pure : {A : Type 0} → A → Run A
pure a env w = (go a, w)

abbrev pub halt : {A : Type 0} → Run A
halt env w = (stop, w)

-- One answer of the environment; time passes.
abbrev pub ask : {A : Type 0} → (Env → ℕ → A) → Run A
ask f env w = (go (f env w.time), record w { time = w.time + 1 })

abbrev pub get : {A : Type 0} → (World → A) → Run A
get f env w = (go (f w), w)

abbrev pub change : (World → World) → Run (Unit {0})
change f env w = (go tt, f w)

abbrev pub emit_event : Event → Run (Unit {0})
emit_event e = change λ w. record w { trace = e ∷ w.trace }

abbrev pub measure : (Metrics → Metrics) → Run (Unit {0})
measure f = change λ w. record w { metrics = f w.metrics }

-- `drop` runs when the scope is left, whichever way.
abbrev pub leave : {A : Type 0} → (World → World) → Flow A × World → Flow A × World
leave drop (r, w) = (r, drop w)

abbrev pub scoped : {A : Type 0} → (World → World) → Run A → Run A
scoped drop body env w = leave drop (body env w)

-- `drop` runs where the run is given up; otherwise what it guards lives on.
abbrev pub unless_done : {A : Type 0} → (World → World) → Flow A × World → Flow A × World
unless_done drop (go a, w) = (go a, w)
unless_done drop (stop, w) = (stop, drop w)

abbrev pub guarded : {A : Type 0} → (World → World) → Run A → Run A
guarded drop body env w = unless_done drop (body env w)

abbrev pub write_client : Text → Run (IoResult (Unit {0}))
write_client text = do emit_event (to_client text); ask λ env t. env.client_write t

-- A text goes out to the backend, protected or not.
abbrev pub emit_to_backend : Text → Run (Unit {0})
emit_to_backend text = change λ w. record w { trace = to_backend w.secured text ∷ w.trace }

abbrev pub write_backend : Text → Run (IoResult (Unit {0}))
write_backend text = do emit_to_backend text; ask λ env t. env.backend_write t
