-- ===== src/Backend/Tls/Connector.antt =====
-- The connectors of src/backend/tls.rs: the trusted certificates, a store of TLS sessions for each FTP
-- session, and the name that a certificate must cover. The TLS library is an argument; a store that
-- it makes is known by its number.
use iot_ftp_upload_gateway.Base.{
  ℕ, ◌+◌, Bool, List, [], ◌∷◌, ◌++◌, Option, none, some, if◌then◌else◌, ◌==◌, Text, Bytes,
}
use iot_ftp_upload_gateway.Io.{invalid_input, IoResult, ok, err}
use iot_ftp_upload_gateway.Config.Settings.{BackendTlsMaxVersion, v1_2, v1_3, BackendTlsConfig}

-- What the code uses of rustls: the certificates of a PEM file, each readable or not (none where the
-- file itself cannot be read), whether the root store takes one, the bundled roots, and the names
-- that are server names.
pub record TlsLibrary : Type 0 where
  pub pem_file_iter : Text → Option (List (Option Bytes))
  pub is_usable : Bytes → Bool
  pub webpki_roots : List Bytes
  pub is_server_name : Text → Bool

pub data ProtocolVersion : Type 0 where
  tls12 tls13 : ProtocolVersion

-- A store by its number, and how many sessions it holds.
pub record Resumption : Type 0 where
  pub store : ℕ
  pub entries : ℕ

pub record ClientConfig : Type 0 where
  pub roots : List Bytes
  pub versions : List ProtocolVersion
  pub resumption : Resumption

-- The `connector` holds the same configuration as `config` does, by sharing it.
pub record BackendTlsConnector : Type 0 where
  pub config : ClientConfig
  pub connector : ClientConfig
  pub server_name : Option Text

abbrev pub session_resumption_entries : ℕ
session_resumption_entries = 32

pub data CaError : Type 0 where
  unreadable invalid_pem unusable no_certificates : CaError

pub data Roots : Type 0 where
  trusted : List Bytes → Roots
  refused : CaError → Roots

-- The `for` over the certificates of the file: the roots so far, and how many were added.
unfoldable pub add_each : TlsLibrary → List (Option Bytes) → List Bytes → ℕ → Roots
add_each lib [] roots added = if added == 0 then refused no_certificates else trusted roots
add_each lib (none ∷ certs) roots added = refused invalid_pem
add_each lib (some cert ∷ certs) roots added =
    let rest = add_each lib certs (roots ++ cert ∷ []) (added + 1) in
    if lib.is_usable cert then rest else refused unusable

abbrev pub of_file : TlsLibrary → Option (List (Option Bytes)) → Roots
of_file lib none = refused unreadable
of_file lib (some certs) = add_each lib certs [] 0

abbrev pub roots_of : TlsLibrary → Option Text → Roots
roots_of lib none = trusted lib.webpki_roots
roots_of lib (some path) = of_file lib (lib.pem_file_iter path)

abbrev pub versions_of : BackendTlsMaxVersion → List ProtocolVersion
versions_of v1_2 = tls12 ∷ []
versions_of v1_3 = tls13 ∷ tls12 ∷ []

pub data Built : Type 0 where
  built : BackendTlsConnector → Built
  failed : CaError → Built

abbrev pub connector_of : ClientConfig → Option Text → BackendTlsConnector
connector_of config server_name = record {
  config = config;
  connector = config;
  server_name = server_name;
}

abbrev pub with_roots : BackendTlsConfig → Resumption → Roots → Built
with_roots config resumption (refused e) = failed e
with_roots config resumption (trusted roots) =
    let client_config : ClientConfig = record {
      roots = roots;
      versions = versions_of config.max_version;
      resumption = resumption;
    } in
    built (connector_of client_config config.server_name)

-- `BackendTlsConnector::new`, with the store that the library gives a new configuration.
unfoldable pub new : TlsLibrary → BackendTlsConfig → Resumption → Built
new lib config resumption = with_roots config resumption (roots_of lib config.ca_file)

-- `for_session`, with the number of the new store.
unfoldable pub for_session : BackendTlsConnector → ℕ → BackendTlsConnector
for_session c store =
    connector_of
      (record c.config {
        resumption = record { store = store; entries = session_resumption_entries };
      })
      c.server_name

-- What a handshake is made with.
pub record Handshake : Type 0 where
  pub name : Text
  pub config : ClientConfig

abbrev pub name_for : BackendTlsConnector → Text → Text
name_for c backend_host = elim c.server_name [ none ↦ backend_host | some name ↦ name ]

-- `connect` up to the handshake itself: an error where the name is no server name.
unfoldable pub connect : TlsLibrary → BackendTlsConnector → Text → IoResult Handshake
connect lib c backend_host =
    let name = name_for c backend_host in
    if lib.is_server_name name
    then ok (record { name = name; config = c.connector })
    else err invalid_input
