-- ===== src/Config/Ranges.antt =====
-- What is known of the ports of a backend that was read.
use iot_ftp_upload_gateway.Base.{
  ℕ, ◌≤◌, ◌≡◌, ap, subst, ◌∙◌, List, [], ◌∷◌, Option, none, some, arith, All, Text, trim,
  split_once, rsplit_once, parse_uint, u16_max, parse_uint-le, >>=-eq-some,
}
use iot_ftp_upload_gateway.Pasv.PortManager.{PortRange}
use iot_ftp_upload_gateway.Config.{
  BackendConfig, port_range, range_of, parse_first_last, parse_name_list, address_and_ports,
  host_and_port, backend_at, parse_backend, parse_each, parse_backends,
}

-- Port numbers in their type, and a range that is not empty.
pub record HasPorts (b : BackendConfig) : Type 0 where
  pub port_le : b.port ≤ u16_max
  pub start_le : b.passive_ports.start ≤ b.passive_ports.end
  pub end_le : b.passive_ports.end ≤ u16_max

port_range-le :
    (start end : ℕ) (range : PortRange)
    → end ≤ u16_max
    → port_range start end ≡ some range
    → (range.start ≤ range.end) × (range.end ≤ u16_max)
port_range-le start end range h e = ground (arith, h, e)

pub parse_first_last-le :
    (raw : Text) (range : PortRange)
    → parse_first_last raw ≡ some range
    → (range.start ≤ range.end) × (range.end ≤ u16_max)
unfolding parse_first_last
parse_first_last-le raw range e =
    let ((first, last), _, read) = >>=-eq-some (split_once b':' raw) range_of e in
    let (start, _, read_last) = >>=-eq-some (parse_uint u16_max (trim first)) _ read in
    let (end, e_end, made) = >>=-eq-some (parse_uint u16_max (trim last)) _ read_last in
    port_range-le start end range (parse_uint-le u16_max (trim last) end e_end) made

address_and_ports-le :
    (entry : Text) (parts : Option (Text × Text)) (address : Text) (range : PortRange)
    → address_and_ports entry parts ≡ some (address, range)
    → (range.start ≤ range.end) × (range.end ≤ u16_max)
address_and_ports-le entry none address range e = ground (arith, e)
address_and_ports-le entry (some (text, ports)) address range e =
    let (found, read, made) = >>=-eq-some (parse_first_last ports) _ e in
    let same : found ≡ range = cc in parse_first_last-le ports range (read ∙ ap some same)

backend_at-HasPorts :
    (address : Text) (range : PortRange) (b : BackendConfig)
    → (range.start ≤ range.end) × (range.end ≤ u16_max)
    → backend_at (address, range) ≡ some b
    → HasPorts b
backend_at-HasPorts address range b h e =
    let ((host, digits), _, read) =
      >>=-eq-some (rsplit_once b':' address) (host_and_port range) e in
    let (port, e_port, made) = >>=-eq-some (parse_uint u16_max digits) _ read in
    let same_port : port ≡ b.port = cc in
    let same_range : range ≡ b.passive_ports = cc in
    record {
      port_le = subst (λ n. n ≤ u16_max) same_port (parse_uint-le u16_max digits port e_port);
      start_le = subst (λ (r : PortRange). r.start ≤ r.end) same_range h.0;
      end_le = subst (λ (r : PortRange). r.end ≤ u16_max) same_range h.1;
    }

parse_backend-HasPorts :
    (entry : Text) (b : BackendConfig) → parse_backend entry ≡ some b → HasPorts b
unfolding parse_backend
parse_backend-HasPorts entry b e =
    let parts = split_once b'@' entry in
    let ((address, range), found, made) =
      >>=-eq-some (address_and_ports entry parts) backend_at e in
    backend_at-HasPorts address range b (address_and_ports-le entry parts address range found) made

parse_each-HasPorts :
    (entries : List Text) (bs : List BackendConfig) → parse_each entries ≡ some bs → All HasPorts bs
unfolding parse_each
parse_each-HasPorts [] bs e = let none_left : [] ≡ bs = cc in subst (All HasPorts) none_left tt
parse_each-HasPorts (entry ∷ entries) bs e =
    let (b, first, later) = >>=-eq-some (parse_backend entry) _ e in
    let (rest, others, made) = >>=-eq-some (parse_each entries) _ later in
    let all_of : b ∷ rest ≡ bs = cc in
    subst (All HasPorts) all_of
      (parse_backend-HasPorts entry b first, parse_each-HasPorts entries rest others)

-- Whatever text is given for the backends, each one that is read has a 16-bit port, and a range of
-- data ports that is not empty and within the 16-bit numbers.
pub parse_backends-HasPorts :
    (raw : Text) (bs : List BackendConfig) → parse_backends raw ≡ some bs → All HasPorts bs
unfolding parse_backends
parse_backends-HasPorts raw bs e = parse_each-HasPorts (parse_name_list raw) bs e
