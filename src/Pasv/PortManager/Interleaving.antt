-- ===== src/Pasv/PortManager/Interleaving.antt =====
-- Allocations and releases of many sessions, interleaved at the lock and at the bind.
use iot_ftp_upload_gateway.Base.{[]}
use iot_ftp_upload_gateway.Pasv.PortManager.{PortRange, new}
use iot_ftp_upload_gateway.Pasv.PortManager.Steps.{System}

abbrev pub idle : PortRange → System
idle range = record { pool = new range; pending = []; guards = [] }
