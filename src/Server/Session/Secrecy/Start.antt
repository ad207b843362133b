-- ===== src/Server/Session/Secrecy/Start.antt =====
-- The start of a session, up to the first protected command, and the session as a whole.
use iot_ftp_upload_gateway.Run.{World, Flow, go, stop, Run, ◌>>◌}
use iot_ftp_upload_gateway.Run.Moves.{Moves}
use iot_ftp_upload_gateway.Server.Session.Secrecy.{IsSafe, IsSecure}

-- A session that goes on is protected; one that stopped kept its secrets.
Protected : {A : Type 0} → Flow A → World → Type 0
Protected (go a) w = IsSecure w
Protected stop w = IsSafe w
