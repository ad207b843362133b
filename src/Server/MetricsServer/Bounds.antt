-- ===== src/Server/MetricsServer/Bounds.antt =====
-- How much of what a peer sends is read.
use iot_ftp_upload_gateway.Base.{ℕ}
use iot_ftp_upload_gateway.Server.MetricsServer.{
  Peer, Headers, finished, too_long, broken, out_of_fuel, Parsed, parsed, failed, unfinished,
}
use iot_ftp_upload_gateway.Server.MetricsServer.Lines.{Within}

abbrev EndsWithin : ℕ → Peer → Headers → Type 0
EndsWithin budget peer (finished later) = Within budget peer later
EndsWithin budget peer (too_long later) = Within budget peer later
EndsWithin budget peer (broken kind) = Unit {0}
EndsWithin budget peer out_of_fuel = ⊥

-- What a request comes to, and that no more than so many bytes were read for it.
abbrev pub ReadsWithin : ℕ → Peer → Parsed → Type 0
ReadsWithin limit peer (parsed request later) = Within limit peer later
ReadsWithin limit peer (failed kind) = Unit {0}
ReadsWithin limit peer unfinished = ⊥
