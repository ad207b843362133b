-- ===== src/Io.antt =====
-- Results of input and output: `io::Result`, the error kinds that the gateway tells apart, and what
-- a timeout makes of a result. The texts of errors, which only go to a log, are left out.
use iot_ftp_upload_gateway.Base.{Bool, true, false}

pub data ErrorKind : Type 0 where
  addr_not_available network_unreachable host_unreachable timed_out permission_denied : ErrorKind
  connection_refused connection_reset broken_pipe : ErrorKind
  invalid_data invalid_input unexpected_eof other : ErrorKind

abbrev pub is_timed_out : ErrorKind → Bool
is_timed_out timed_out = true
is_timed_out _ = false

abbrev pub is_invalid_data : ErrorKind → Bool
is_invalid_data invalid_data = true
is_invalid_data _ = false

abbrev pub is_unexpected_eof : ErrorKind → Bool
is_unexpected_eof unexpected_eof = true
is_unexpected_eof _ = false

pub data IoResult (A : Type 0) : Type 0 where
  ok : A → IoResult A
  err : ErrorKind → IoResult A

-- What `tokio::time::timeout` gives.
pub data Timed (A : Type 0) : Type 0 where
  done : A → Timed A
  elapsed : Timed A
