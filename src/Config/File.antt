-- ===== src/Config/File.antt =====
-- What the YAML file gives: the settings as serde fills them in, and each backend with its range of
-- data ports in one of two forms. The numbers are those of the types that serde reads.
use iot_ftp_upload_gateway.Base.{
  ℕ, ◌≤◌, ◌≡◌, subst, Bool, List, [], ◌∷◌, Option, none, some, arith, if◌then◌else◌, ltb, All, Text,
  u16_max, ◌>>=◌, >>=-eq-some,
}
use iot_ftp_upload_gateway.Pasv.PortManager.{PortRange}
use iot_ftp_upload_gateway.Config.{BackendConfig, default_backend_passive_ports, parse_first_last}
use iot_ftp_upload_gateway.Config.Settings.{Settings}
use iot_ftp_upload_gateway.Config.Ranges.{HasPorts, parse_first_last-le}

-- `Form`: `"first:last"`, or `{start, end}`.
pub data Form : Type 0 where
  text : Text → Form
  map_form : PortRange → Form

abbrev pub is_empty : PortRange → Bool
is_empty range = ltb range.end range.start

abbrev pub of_form : Form → Option PortRange
of_form (text raw) = parse_first_last raw
of_form (map_form range) = some range

abbrev pub unless_empty : PortRange → Option PortRange
unless_empty range = if is_empty range then none else some range

unfoldable pub deserialize_port_range : Form → Option PortRange
deserialize_port_range form = of_form form >>= unless_empty

-- A backend of the file; the range may be left out.
pub record BackendEntry : Type 0 where
  pub host : Text
  pub port : ℕ
  pub passive_ports : Option Form

abbrev pub ports_of : Option Form → Option PortRange
ports_of none = some default_backend_passive_ports
ports_of (some form) = deserialize_port_range form

abbrev pub backend_of : BackendEntry → Option BackendConfig
backend_of entry = do
  ports ← ports_of entry.passive_ports
  some (record { host = entry.host; port = entry.port; passive_ports = ports })

unfoldable pub backends_of : List BackendEntry → Option (List BackendConfig)
backends_of [] = some []
backends_of (entry ∷ entries) = do
  backend ← backend_of entry
  backends ← backends_of entries
  some (backend ∷ backends)

-- The file: all settings but the backends, and these.
pub record File : Type 0 where
  pub settings : Settings
  pub backends : List BackendEntry

abbrev pub read_file : File → Option Settings
read_file file = do
  backends ← backends_of file.backends
  some (record file.settings { backends = backends })

-- The numbers of an entry are 16-bit numbers.
abbrev pub IsU16Form : Option Form → Type 0
IsU16Form none = Unit
IsU16Form (some (text raw)) = Unit
IsU16Form (some (map_form range)) = (range.start ≤ u16_max) × (range.end ≤ u16_max)

abbrev pub IsU16Entry : BackendEntry → Type 0
IsU16Entry entry = (entry.port ≤ u16_max) × IsU16Form entry.passive_ports

unless_empty-le :
    (range made : PortRange)
    → range.end ≤ u16_max
    → unless_empty range ≡ some made
    → (made.start ≤ made.end) × (made.end ≤ u16_max)
unless_empty-le range made h e = ground (arith, h, e)

ports_of-le :
    (given : Option Form) (range : PortRange)
    → IsU16Form given
    → ports_of given ≡ some range
    → (range.start ≤ range.end) × (range.end ≤ u16_max)
unfolding deserialize_port_range
ports_of-le none range h e =
    let same : default_backend_passive_ports ≡ range = cc in
    subst (λ (r : PortRange). (r.start ≤ r.end) × (r.end ≤ u16_max)) same (omega arith, omega arith)
ports_of-le (some (text raw)) range h e =
    let (found, read, filled) = >>=-eq-some (parse_first_last raw) unless_empty e in
    unless_empty-le found range (parse_first_last-le raw found read).1 filled
ports_of-le (some (map_form given)) range h e = unless_empty-le given range h.1 e

backend_of-HasPorts :
    (entry : BackendEntry) (b : BackendConfig)
    → IsU16Entry entry
    → backend_of entry ≡ some b
    → HasPorts b
backend_of-HasPorts entry b h e =
    let (ports, read, made) = >>=-eq-some (ports_of entry.passive_ports) _ e in
    let (start_le, end_le) = ports_of-le entry.passive_ports ports h.1 read in
    let same : record { host = entry.host; port = entry.port; passive_ports = ports } ≡ b = cc in
    subst HasPorts same (record { port_le = h.0; start_le = start_le; end_le = end_le })

-- Each backend that is read from the file has its ports.
pub backends_of-HasPorts :
    (entries : List BackendEntry) (bs : List BackendConfig)
    → All IsU16Entry entries
    → backends_of entries ≡ some bs
    → All HasPorts bs
unfolding backends_of
backends_of-HasPorts [] bs h e = let same : List.[] ≡ bs = cc in subst (All HasPorts) same tt
backends_of-HasPorts (entry ∷ entries) bs h e =
    let (b, read, later) = >>=-eq-some (backend_of entry) _ e in
    let (rest, read_rest, made) = >>=-eq-some (backends_of entries) _ later in
    let same : b ∷ rest ≡ bs = cc in
    subst (All HasPorts) same
      (backend_of-HasPorts entry b h.0 read, backends_of-HasPorts entries rest h.1 read_rest)
