-- ===== src/Backend/Tls/Sessions.antt =====
-- The connectors of the sessions: each session asks for one when it starts, and makes all of its TLS
-- connections with it, those for control and those for data, in any order with those of others.
use iot_ftp_upload_gateway.Base.{ℕ, ◌+◌, List, [], ◌∷◌, ◌++◌, Option, none, some, get_elem?, Text}
use iot_ftp_upload_gateway.Io.{IoResult, ok, err}
use iot_ftp_upload_gateway.Backend.Tls.Connector.{
  TlsLibrary, BackendTlsConnector, Handshake, for_session, connect,
}

-- The connector that all sessions share, those of the sessions, and the number of the next store.
pub record Desk : Type 0 where
  pub base : BackendTlsConnector
  pub sessions : List BackendTlsConnector
  pub next_store : ℕ

abbrev pub opened : BackendTlsConnector → ℕ → Desk
opened base store = record { base = base; sessions = []; next_store = store }

-- A session starts, and a connection to a host by the session at this place.
pub data TlsEvent : Type 0 where
  begins : TlsEvent
  connects : ℕ → Text → TlsEvent

-- A handshake, and the session that makes it.
pub record Made : Type 0 where
  pub session : ℕ
  pub host : Text
  pub handshake : Handshake

abbrev pub made : ℕ → Text → IoResult Handshake → List Made
made i host (err kind) = []
made i host (ok h) = record { session = i; host = host; handshake = h } ∷ []

abbrev pub connected : TlsLibrary → ℕ → Text → Option BackendTlsConnector → List Made
connected lib i host none = []
connected lib i host (some c) = made i host (connect lib c host)

unfoldable pub take_part : TlsLibrary → TlsEvent → Desk → List Made × Desk
take_part lib begins d = (
  [],
  record d {
    sessions = d.sessions ++ for_session d.base d.next_store ∷ [];
    next_store = d.next_store + 1;
  },
)
take_part lib (connects i host) d = (connected lib i host (get_elem? d.sessions i), d)

unfoldable pub take_parts : TlsLibrary → List TlsEvent → Desk → List Made
take_parts lib [] d = []
take_parts lib (event ∷ events) d =
    let (now, after) = take_part lib event d in now ++ take_parts lib events after
