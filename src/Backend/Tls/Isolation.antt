-- ===== src/Backend/Tls/Isolation.antt =====
-- No two sessions share a store of TLS sessions, and the connections of one session do.
use iot_ftp_upload_gateway.Base.{ℕ, ◌+◌, ◌≡◌, some, length, get_elem?}
use iot_ftp_upload_gateway.Backend.Tls.Connector.{
  TlsLibrary, ClientConfig, BackendTlsConnector, session_resumption_entries, for_session, name_for,
}
use iot_ftp_upload_gateway.Backend.Tls.Sessions.{Desk, Made}

module _ (lib : TlsLibrary) (base : BackendTlsConnector) (first : ℕ) where
  -- The connector of the session at a place.
  IsOwn : ℕ → BackendTlsConnector → Type 0
  IsOwn i c = c ≡ for_session base (first + i)

  record IsDesk (d : Desk) : Type 0 where
    shared : d.base ≡ base
    own : (i : ℕ) (c : BackendTlsConnector) → get_elem? d.sessions i ≡ some c → IsOwn i c
    next : d.next_store ≡ first + length d.sessions

  -- A handshake of a session: with its own store, in all else as the shared connector, and for the
  -- configured name, or the host where there is none.
  abbrev pub IsIsolated : Made → Type 0
  IsIsolated m =
      (m.handshake.config ≡ record base.config {
        resumption = record { store = first + m.session; entries = session_resumption_entries };
      })
      × (m.handshake.name ≡ name_for base m.host)

abbrev store_of : ClientConfig → ℕ
store_of c = c.resumption.store
