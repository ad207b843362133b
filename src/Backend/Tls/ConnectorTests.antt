-- ===== src/Backend/Tls/ConnectorTests.antt =====
-- A private authority, and two sessions whose connections are interleaved.
use iot_ftp_upload_gateway.Base.{
  ℕ, ◌+◌, ◌≡◌, ◌↔◌, refl, true, List, [], ◌∷◌, none, some, if◌then◌else◌, Text, codes, text_eq,
}
use iot_ftp_upload_gateway.Config.Settings.{BackendTlsConfig, default_tls}
use iot_ftp_upload_gateway.Backend.Tls.Connector.{
  TlsLibrary, Resumption, BackendTlsConnector, built, failed, unusable, new, add_each, for_session,
}
use iot_ftp_upload_gateway.Backend.Tls.Trust.{Trusts, trusting, new-Trusts}
use iot_ftp_upload_gateway.Backend.Tls.Sessions.{TlsEvent, begins, connects, Made}

abbrev library : TlsLibrary
library = record {
  pem_file_iter =
      λ path. if text_eq path (codes "ca.pem") then some (some (codes "ca") ∷ []) else none;
  is_usable = λ cert. text_eq cert (codes "ca");
  webpki_roots = [];
  is_server_name = λ name. true;
}

abbrev config : BackendTlsConfig
config = record default_tls { ca_file = some (codes "ca.pem") }

abbrev resumption : Resumption
resumption = record { store = 0; entries = 256 }

new-Trusts_example :
    (new library config resumption ≡ built (trusting config resumption (codes "ca" ∷ [])))
    ↔ Trusts library (some (codes "ca.pem")) (codes "ca" ∷ [])
new-Trusts_example = new-Trusts library config resumption (codes "ca" ∷ [])

is_built : new library config resumption ≡ built (trusting config resumption (codes "ca" ∷ []))
unfolding new add_each
is_built = refl

refuses_unusable :
    new (record library { is_usable = λ cert. text_eq cert [] }) config resumption ≡ failed unusable
unfolding new add_each
refuses_unusable = refl

abbrev base : BackendTlsConnector
base = trusting config resumption (codes "ca" ∷ [])

abbrev events : List TlsEvent
events =
    begins
    ∷ begins
    ∷ connects 0 (codes "ftp-a")
    ∷ connects 1 (codes "ftp-b")
    ∷ connects 0 (codes "ftp-a")
    ∷ []

abbrev of_session : ℕ → Text → Made
of_session i host = record {
  session = i;
  host = host;
  handshake = record { name = host; config = (for_session base (1 + i)).connector };
}

abbrev first : Made
first = of_session 0 (codes "ftp-a")

abbrev second : Made
second = of_session 1 (codes "ftp-b")
