-- ===== src/Server/MetricsServer/Tests.antt =====
-- A scrape, and a peer that closes the connection too soon.
use iot_ftp_upload_gateway.Base.{◌≡◌, ◌≢◌, ap, [], ◌∷◌, ◌++◌, none, arith, codes, crlf, lf, Bytes}
use iot_ftp_upload_gateway.Io.{done, elapsed}
use iot_ftp_upload_gateway.Metrics.{new}
use iot_ftp_upload_gateway.Pasv.PortManager
use iot_ftp_upload_gateway.Server.MetricsServer.{
  Peer, parsed, request_line, read_request, Sources, answer, response, page, plain, react,
  handle_request, request_of, split_whitespace,
}
use iot_ftp_upload_gateway.Metrics.Scrape
use iot_ftp_upload_gateway.Server.MetricsServer.Answers.{get-IsWord, path-IsWord}
use iot_ftp_upload_gateway.Server.MetricsServer.Heads.{IsHeader, header_bytes}
use iot_ftp_upload_gateway.Server.MetricsServer.Requests.{
  IsWord, first_line, read_request-request, read_request_broken_off,
}

abbrev gateway : Sources
gateway = record {
  metrics = new;
  port_manager = PortManager.new (record { start = 10000; end = 10100 });
  source_rotator = none;
  now = 0;
}

abbrev get : Bytes
get = first_line (codes "GET") (codes "/metrics") (codes "HTTP/1.1")

abbrev host_header : Bytes
host_header = codes "Host: gateway\r"

abbrev scrape : Peer
scrape = record {
  bytes = get ++ lf ∷ header_bytes (host_header ∷ []) (crlf ++ codes "x");
  failure = none;
}

version-IsWord : IsWord (codes "HTTP/1.1")
version-IsWord = record { ascii = omega arith; visible = ground arith; filled = cc }

host_header-IsHeader : IsHeader host_header
host_header-IsHeader = record {
  is_line = record { ascii = omega arith; one_line = omega arith };
  filled = cc;
  visible = cc;
}

scrape_is_read :
    read_request scrape
    ≡ parsed
        (request_line (codes "GET") (codes "/metrics"))
        (record { bytes = codes "x"; failure = none })
scrape_is_read =
    read_request-request (codes "GET") (codes "/metrics") (codes "HTTP/1.1") get-IsWord path-IsWord
      version-IsWord (host_header ∷ []) (codes "x") none (omega arith) (host_header-IsHeader, tt)
      (omega arith)

read_request_broken_off_example :
    read_request (record { bytes = codes "GET /metr"; failure = none })
    ≡ parsed
        (request_of (split_whitespace (codes "GET /metr")))
        (record { bytes = []; failure = none })
read_request_broken_off_example =
    read_request_broken_off (codes "GET /metr")
      (record { ascii = omega arith; one_line = omega arith }) (cc) (omega arith)

-- A scrape is answered with the page.
answers :
    handle_request gateway (done scrape)
    ≡ answer (response (codes "200 OK") (codes "text/plain; version=0.0.4") (page gateway))
unfolding handle_request
answers = ap (react gateway) scrape_is_read

silent : handle_request gateway elapsed ≢ plain (codes "400 Bad Request")
unfolding handle_request
silent = cc
