-- ===== src/Server/MetricsServer.antt =====
-- src/server/metrics_server.rs: one request of a scraper, and its answer. What the peer sends is its
-- bytes and how they end; the timer around the reading is an argument.
pub mod Lines
pub mod Bounds
pub mod Heads
pub mod Requests
pub mod Client
pub mod Answers
mod Tests
use iot_ftp_upload_gateway.Base.{
  ℕ, zero, suc, ◌-◌, Bool, true, false, not, ◌&&◌, ◌||◌, List, [], ◌∷◌, ◌++◌, Option, none, some,
  leb, ◌==◌, if◌then◌else◌, length, keep, Text, codes, crlf, lf, text_eq, is_whitespace, ends_with,
  add_to_first, Bytes, decode, show,
}
use iot_ftp_upload_gateway.Io.{ErrorKind, invalid_data, IoResult, ok, err, Timed, done, elapsed}
use iot_ftp_upload_gateway.Metrics.{Metrics}
use iot_ftp_upload_gateway.Metrics.Render.{render}
use iot_ftp_upload_gateway.Pasv.PortManager.{PortManager, active_count, capacity}
use iot_ftp_upload_gateway.Backend.Rotator.{State}
use iot_ftp_upload_gateway.Backend.Rotator.Snapshot.{RotatorSnapshot, snapshot_at}
use iot_ftp_upload_gateway.Server.Session.Lines.{byte_length}

abbrev pub max_request_line_bytes : ℕ
max_request_line_bytes = 8192

abbrev pub max_header_bytes : ℕ
max_header_bytes = 8192

-- The bytes of a peer, and how the stream ends behind them: closed, or with an error.
pub record Peer : Type 0 where
  pub bytes : Bytes
  pub failure : Option ErrorKind

-- Up to the first line feed, or up to the limit of `take`.
unfoldable pub take_line : ℕ → Bytes → Bytes × Bytes
take_line zero s = ([], s)
take_line (suc cap) [] = ([], [])
take_line (suc cap) (c ∷ s) =
    let (line, rest) = take_line cap s in if c == lf then (c ∷ [], s) else (c ∷ line, rest)

-- A line as its number of bytes and its text, and the peer behind it.
pub record Line : Type 0 where
  pub size : ℕ
  pub text : Text
  pub later : Peer

abbrev pub decoded : Bytes → Peer → Option Text → IoResult Line
decoded line later none = err invalid_data
decoded line later (some text) = ok (record { size = length line; text = text; later = later })

-- The stream fails before the line is at its end.
abbrev pub is_cut : ℕ → Bytes → Bool
is_cut cap line = not (ends_with lf line) && not (leb cap (length line))

abbrev pub line_or_failure : ℕ → Bytes × Bytes → Option ErrorKind → IoResult Line
line_or_failure cap (line, rest) none =
    decoded line (record { bytes = rest; failure = none }) (decode line)
line_or_failure cap (line, rest) (some kind) =
    if is_cut cap line
    then err kind
    else decoded line (record { bytes = rest; failure = some kind }) (decode line)

-- `conn.take(cap).read_line()`.
unfoldable pub read_line : ℕ → Peer → IoResult Line
unfolding take_line decode
read_line cap peer = line_or_failure cap (take_line cap peer.bytes) peer.failure

-- How the loop over the header lines ends.
pub data Headers : Type 0 where
  finished : Peer → Headers
  too_long : Peer → Headers
  broken : ErrorKind → Headers
  out_of_fuel : Headers

abbrev pub min : ℕ → ℕ → ℕ
min a b = if leb a b then a else b

abbrev pub is_blank_line : Text → Bool
is_blank_line line = text_eq line crlf || text_eq line (lf ∷ [])

abbrev pub line_cap : ℕ → ℕ
line_cap budget = min budget max_request_line_bytes

-- One header line, and the passes after it.
abbrev pub header_line : (ℕ → Peer → Headers) → ℕ → IoResult Line → Headers
header_line again budget (err kind) = broken kind
header_line again budget (ok line) =
    let rest = again (budget - line.size) line.later in
    if line.size == 0
    then finished line.later
    else if line.size == line_cap budget && not (ends_with lf line.text)
    then too_long line.later
    else if is_blank_line line.text
    then finished line.later
    else rest

-- Each pass but the last takes a byte of the budget at least.
unfoldable pub headers : ℕ → ℕ → Peer → Headers
headers zero budget peer = out_of_fuel
headers (suc fuel) budget peer =
    let rest = header_line (headers fuel) budget (read_line (line_cap budget) peer) in
    if budget == 0 then too_long peer else rest

-- The parts between characters that pass a test.
abbrev pub split_where : (ℕ → Bool) → Text → List Text
split_where p [] = [] ∷ []
split_where p (c ∷ s) = let rest = split_where p s in if p c then [] ∷ rest else add_to_first c rest

abbrev pub split_whitespace : Text → List Text
split_whitespace s = keep (λ word. not (length word == 0)) (split_where is_whitespace s)

pub data ParsedRequest : Type 0 where
  request_line : Text → Text → ParsedRequest
  connection_closed : ParsedRequest
  malformed : ParsedRequest

-- The two `parts.next().unwrap_or("")`, and the check of the method.
abbrev pub request_of : List Text → ParsedRequest
request_of [] = malformed
request_of (method ∷ []) = request_line method []
request_of (method ∷ path ∷ more) = request_line method path

-- The result, and what is left unread; none where the fuel ran out.
pub data Parsed : Type 0 where
  parsed : ParsedRequest → Peer → Parsed
  failed : ErrorKind → Parsed
  unfinished : Parsed

abbrev pub after_headers : Text → Headers → Parsed
after_headers line (finished peer) = parsed (request_of (split_whitespace line)) peer
after_headers line (too_long peer) = parsed malformed peer
after_headers line (broken kind) = failed kind
after_headers line out_of_fuel = unfinished

abbrev pub after_request_line : IoResult Line → Parsed
after_request_line (err kind) = failed kind
after_request_line (ok line) =
    if line.size == 0
    then parsed connection_closed line.later
    else if line.size == max_request_line_bytes && not (ends_with lf line.text)
    then parsed malformed line.later
    else after_headers line.text (headers (suc max_header_bytes) max_header_bytes line.later)

unfoldable pub read_request : Peer → Parsed
unfolding read_line headers
read_request peer = after_request_line (read_line max_request_line_bytes peer)

abbrev pub response : Text → Text → Text → Text
response status content_type body =
    codes "HTTP/1.1 "
    ++ (status
        ++ (codes "\r\nContent-Type: "
            ++ (content_type
                ++ (codes "\r\nContent-Length: "
                    ++ (show (byte_length body)
                        ++ (codes "\r\nConnection: close\r\n\r\n" ++ body))))))

-- What a connection comes to: the text that is written before it is shut down, or the error.
pub data Reaction : Type 0 where
  no_answer : Reaction
  answer : Text → Reaction
  gives_up : ErrorKind → Reaction

abbrev pub plain : Text → Reaction
plain status = answer (response status (codes "text/plain") [])

-- What the answers are made from.
pub record Sources : Type 0 where
  pub metrics : Metrics
  pub port_manager : PortManager
  pub source_rotator : Option State
  pub now : ℕ

abbrev pub rotation_of : ℕ → Option State → Option RotatorSnapshot
rotation_of now none = none
rotation_of now (some state) = some (snapshot_at now state)

abbrev pub page : Sources → Text
page g =
    render g.metrics (active_count g.port_manager) (capacity g.port_manager)
      (rotation_of g.now g.source_rotator)

abbrev pub react : Sources → Parsed → Reaction
react g (failed kind) = gives_up kind
react g unfinished = no_answer
react g (parsed connection_closed peer) = no_answer
react g (parsed malformed peer) = plain (codes "400 Bad Request")
react g (parsed (request_line method path) peer) =
    if not (text_eq method (codes "GET"))
    then plain (codes "405 Method Not Allowed")
    else if not (text_eq path (codes "/metrics"))
    then plain (codes "404 Not Found")
    else answer (response (codes "200 OK") (codes "text/plain; version=0.0.4") (page g))

unfoldable pub handle_request : Sources → Timed Peer → Reaction
unfolding read_request
handle_request g elapsed = no_answer
handle_request g (done peer) = react g (read_request peer)
