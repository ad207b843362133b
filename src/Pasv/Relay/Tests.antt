-- ===== src/Pasv/Relay/Tests.antt =====
-- Sample transfers.
use iot_ftp_upload_gateway.Base.{◌≡◌, ◌↔◌, true, List, [], ◌∷◌}
use iot_ftp_upload_gateway.Io.{ok}
use iot_ftp_upload_gateway.Run.{CopyEvent, turn, silence}
use iot_ftp_upload_gateway.Pasv.Relay.Copy.{copy, relay_bidirectional}
use iot_ftp_upload_gateway.Pasv.Relay.Transfer.{relay_bidirectional_iff}

abbrev one_way : List CopyEvent
one_way = turn (ok 5) (ok tt) ∷ turn (ok 0) (ok tt) ∷ []

upload_only :
    (relay_bidirectional true one_way (silence ∷ []) ≡ ok (5, 0))
    ↔ ((copy 0 one_way ≡ ok 5) × (copy 0 (silence ∷ []) ≡ ok 0))
upload_only = relay_bidirectional_iff true one_way (silence ∷ []) 5 0
