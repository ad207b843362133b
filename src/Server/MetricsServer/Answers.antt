-- ===== src/Server/MetricsServer/Answers.antt =====
-- A scraper's request, its answer, and what is read out of that.
use mathlib.Core.Option
use iot_ftp_upload_gateway.Base.{
  ℕ, suc, ◌≤◌, ◌≡◌, ◌≢◌, refl, ap, ◌∙◌, List, [], ◌∷◌, ◌++◌, Option, some, arith, All-append, Text,
  codes, cr, lf, Lacks, split_once-append, show, show-Lacks, parse_uint-show, u64_max, ◌>>=◌,
}
use iot_ftp_upload_gateway.Server.Session.Lines.{byte_length}
use iot_ftp_upload_gateway.Metrics.Samples.{samples}
use iot_ftp_upload_gateway.Pasv.PortManager.{active_count, capacity}
use iot_ftp_upload_gateway.Server.MetricsServer.{response, Sources, rotation_of}
use iot_ftp_upload_gateway.Server.MetricsServer.Requests.{IsWord}
use iot_ftp_upload_gateway.Server.MetricsServer.Client.{
  behind_lf, line_end, on_line, head, max_headers, checked, after_head, after_first, read_response,
}

line_end-append :
    (line rest : Text) → Lacks cr line → line_end (line ++ cr ∷ lf ∷ rest) ≡ some (line, rest)
line_end-append line rest h =
    ap (λ found. found >>= behind_lf) (split_once-append cr line (lf ∷ rest) h)

head-line :
    (fuel c : ℕ) (line rest : Text) (lines : List Text) (body : Text)
    → Lacks cr (c ∷ line)
    → head fuel rest ≡ some (lines, body)
    → head (suc fuel) ((c ∷ line) ++ cr ∷ lf ∷ rest) ≡ some ((c ∷ line) ∷ lines, body)
unfolding head
head-line fuel c line rest lines body h later =
    ap (λ found. found >>= on_line (head fuel)) (line_end-append (c ∷ line) rest h)
    ∙ ap (Option.map (λ (ls, b). ((c ∷ line) ∷ ls, b))) later

checked-same : (status body : Text) → checked status body (byte_length body) ≡ some (status, body)
checked-same status body = ground arith

-- The status and the body of a response are read back from it, if the body is shorter than 2 ^ 64
-- bytes and neither the status nor the type holds a carriage return.
pub read_response-response :
    (status content_type body : Text)
    → Lacks cr status
    → Lacks cr content_type
    → byte_length body ≤ u64_max
    → read_response (response status content_type body) ≡ some (status, body)
unfolding read_response
read_response-response status content_type body s t fits =
    ap (λ found. found >>= after_first)
      (line_end-append (codes "HTTP/1.1 " ++ status) _
        (All-append (λ d. d ≢ cr) (codes "HTTP/1.1 ") status (omega arith) s))
    ∙ ap (λ found. found >>= after_head status) headers
    ∙ ap (λ found. found >>= checked status body) (parse_uint-show u64_max (byte_length body) fits)
    ∙ checked-same status body
  where
    headers :
        head max_headers (
          (codes "Content-Type: " ++ content_type)
          ++ cr
            ∷ lf
            ∷ ((codes "Content-Length: " ++ show (byte_length body))
                ++ cr ∷ lf ∷ (codes "Connection: close" ++ cr ∷ lf ∷ cr ∷ lf ∷ body)))
        ≡ some (
          (codes "Content-Type: " ++ content_type)
              ∷ (codes "Content-Length: " ++ show (byte_length body))
              ∷ codes "Connection: close"
              ∷ [],
          body,
        )
    headers =
        head-line 99 b'C' (codes "ontent-Type: " ++ content_type) _ _ body
          (All-append (λ d. d ≢ cr) (codes "Content-Type: ") content_type (omega arith) t)
          (head-line 98 b'C' (codes "ontent-Length: " ++ show (byte_length body)) _ _ body
            (All-append (λ d. d ≢ cr) (codes "Content-Length: ") (show (byte_length body))
              (omega arith) (show-Lacks cr (byte_length body) (λ i. omega arith)))
            (head-line 97 b'C' (codes "onnection: close") (cr ∷ lf ∷ body) [] body (omega arith)
              refl))

pub get-IsWord : IsWord (codes "GET")
get-IsWord = record { ascii = omega arith; visible = ground arith; filled = cc }

pub path-IsWord : IsWord (codes "/metrics")
path-IsWord = record { ascii = omega arith; visible = ground arith; filled = cc }

abbrev pub scraped : Sources → List (Text × ℕ)
scraped g =
    samples g.metrics (active_count g.port_manager) (capacity g.port_manager)
      (rotation_of g.now g.source_rotator)
