-- ===== src/Config.antt =====
-- src/config.rs: the texts that the environment's variables hold. An error ends the start of the
-- gateway with a message, which is left out: it is none.
pub mod Settings
pub mod File
pub mod Load
pub mod Typed
pub mod Ready
pub mod Ranges
pub mod Backends
mod Tests
mod LoadTests
use iot_ftp_upload_gateway.Base.{
  ℕ, Bool, true, false, not, List, [], ◌∷◌, Option, none, some, map, ltb, ◌==◌, if◌then◌else◌,
  length, keep, Text, codes, text_eq, trim, split, split_once, rsplit_once, to_ascii_lowercase,
  ◌||◌, parse_uint, u16_max, ◌>>=◌,
}
use iot_ftp_upload_gateway.Pasv.PortManager.{PortRange}

abbrev pub default_backend_passive_ports : PortRange
default_backend_passive_ports = record { start = 8192; end = 8200 }

pub record BackendConfig : Type 0 where
  pub host : Text
  pub port : ℕ
  pub passive_ports : PortRange

abbrev pub port_range : ℕ → ℕ → Option PortRange
port_range start end = if ltb end start then none else some (record { start = start; end = end })

abbrev pub range_of : Text × Text → Option PortRange
range_of (first, last) = do
  start ← parse_uint u16_max (trim first)
  end ← parse_uint u16_max (trim last)
  port_range start end

unfoldable pub parse_first_last : Text → Option PortRange
parse_first_last raw = split_once b':' raw >>= range_of

-- `true`/`false` in any case, or `1`/`0`.
unfoldable pub parse_bool : Text → Option Bool
parse_bool raw =
    let word = map to_ascii_lowercase (trim raw) in
    if text_eq word (codes "true") || text_eq word (codes "1")
    then some true
    else if text_eq word (codes "false") || text_eq word (codes "0")
    then some false
    else none

-- The trimmed parts of a list with commas, less the blank ones.
unfoldable pub parse_name_list : Text → List Text
parse_name_list raw = keep (λ name. not (length name == 0)) (map trim (split b',' raw))

-- The `match entry.split_once('@')`.
abbrev pub address_and_ports : Text → Option (Text × Text) → Option (Text × PortRange)
address_and_ports entry none = some (entry, default_backend_passive_ports)
address_and_ports entry (some (address, ports)) = do
  passive_ports ← parse_first_last ports
  some (address, passive_ports)

abbrev pub host_and_port : PortRange → Text × Text → Option BackendConfig
host_and_port passive_ports (host, digits) = do
  port ← parse_uint u16_max digits
  some (record { host = host; port = port; passive_ports = passive_ports })

abbrev pub backend_at : Text × PortRange → Option BackendConfig
backend_at (address, passive_ports) = rsplit_once b':' address >>= host_and_port passive_ports

unfoldable pub parse_backend : Text → Option BackendConfig
parse_backend entry = address_and_ports entry (split_once b'@' entry) >>= backend_at

-- `collect` of results: the first error ends it.
unfoldable pub parse_each : List Text → Option (List BackendConfig)
parse_each [] = some []
parse_each (entry ∷ entries) = do
  backend ← parse_backend entry
  backends ← parse_each entries
  some (backend ∷ backends)

unfoldable pub parse_backends : Text → Option (List BackendConfig)
unfolding parse_name_list
parse_backends raw = parse_each (parse_name_list raw)
