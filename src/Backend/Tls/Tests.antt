-- ===== src/Backend/Tls/Tests.antt =====
-- A negotiation that succeeds.
use iot_ftp_upload_gateway.Base.{
  ℕ, ◌≡◌, refl, true, false, [], ◌++◌, none, Text, codes, crlf, ltb, if◌then◌else◌,
}
use iot_ftp_upload_gateway.Io.{ok, done}
use iot_ftp_upload_gateway.Backend.Rotator.{permit}
use iot_ftp_upload_gateway.Run.{Env, World, control_line}
use iot_ftp_upload_gateway.Backend.Tls.{
  read_reply, negotiate_explicit_ftps, command_expecting, protect_data, shake_hands, reply_line,
}
use iot_ftp_upload_gateway.Backend.Tls.Negotiation.{negotiated, negotiate_explicit_ftps-sends}

-- A reply of two lines to the first command, and of one to the others.
abbrev replies : ℕ → Text
replies t =
    if ltb t 2
    then codes "234-soon" ++ crlf
    else if ltb t 4
    then codes "234 now" ++ crlf
    else codes "200 ok" ++ crlf

abbrev env : Env
env = record {
  client_read = λ t. control_line (ok []);
  client_write = λ t. ok tt;
  backend_read = λ t. done (ok (replies t));
  backend_write = λ t. ok tt;
  timed_write = λ t. done (ok tt);
  accepts = λ t. [];
  can_bind = λ t k port. true;
  connect = λ t. done (ok tt);
  handshake = λ t. done (ok tt);
  buffered = λ t. false;
  control_peer = none;
  slot_wait = λ t. permit;
  now = λ t. t;
  upload = λ t. [];
  download = λ t. [];
  upload_first = λ t. true;
}

abbrev world : World
world = record {
  time = 0;
  trace = [];
  secured = false;
  metrics = iot_ftp_upload_gateway.Metrics.new;
  pool = record { in_use = []; range = record { start = 1; end = 1 }; next_offset = 0 };
  rotator = none;
  active_pasv = none;
  upload_confirmed = false;
}

negotiate_explicit_ftps-sends_example :
    ((negotiate_explicit_ftps env world).1.trace ≡ negotiated [])
    × ((negotiate_explicit_ftps env world).1.secured ≡ true)
unfolding negotiate_explicit_ftps command_expecting read_reply reply_line shake_hands protect_data
negotiate_explicit_ftps-sends_example = negotiate_explicit_ftps-sends env world refl refl
