-- ===== src/Server/Listener/Reaching.antt =====
-- What is enough for the program to come to its loop.
use mathlib.Core.Option
use iot_ftp_upload_gateway.Base.{◌≡◌, refl, ap, List, Option, none, some, Bytes}
use iot_ftp_upload_gateway.Io.{ok}
use iot_ftp_upload_gateway.Config.Settings.{BackendTlsMode, BackendSourceMode, Settings}
use iot_ftp_upload_gateway.Config.File.{File}
use iot_ftp_upload_gateway.Config.Load.{Host, load}
use iot_ftp_upload_gateway.Config.Ready.{IsU16File, IsReady, load-IsReady}
use iot_ftp_upload_gateway.Backend.Rotator.{State}
use iot_ftp_upload_gateway.Backend.Rotator.Refresh
use iot_ftp_upload_gateway.Backend.Tls.Connector.{BackendTlsConnector}
use iot_ftp_upload_gateway.Backend.Tls.Trust.{Trusts, trusting, new-Trusts}
use iot_ftp_upload_gateway.Server.Listener.{Gateway, gateway_of, start}
use iot_ftp_upload_gateway.Server.Listener.Start.{
  Surroundings, made, Shared, shared_of, of_built, tls_part, of_started, rotator_part, listen_addr,
  prepare, main,
}

tls_part-made :
    (env : Surroundings) (s : Settings) (mode : BackendTlsMode)
    → (mode ≡ BackendTlsMode.explicit
        → (roots : List Bytes) × Trusts env.library s.backend_tls.ca_file roots)
    → (tls : Option BackendTlsConnector) × (tls_part env s mode ≡ made tls)
tls_part-made env s BackendTlsMode.off trusts = (none, refl)
tls_part-made env s BackendTlsMode.explicit trusts =
    let (roots, trusted) = trusts refl in
    (
      some (trusting s.backend_tls env.resumption roots),
      ap of_built ((new-Trusts env.library s.backend_tls env.resumption roots).1 trusted),
    )

rotator_part-made :
    (env : Surroundings) (s : Settings) (mode : BackendSourceMode)
    → (mode ≡ BackendSourceMode.rotate
        → (r : State) × (Refresh.start env.interfaces s.backend_source.interfaces
            ≡ Refresh.Started.started r))
    → (rotator : Option State) × (rotator_part env s mode ≡ made rotator)
rotator_part-made env s BackendSourceMode.off starts = (none, refl)
rotator_part-made env s BackendSourceMode.rotate starts =
    let (r, e) = starts refl in (some r, ap of_started e)

start-made : (host : Host) (s : Settings) → IsReady host s → (g : Gateway) × (start s ≡ some g)
unfolding start
start-made host s ready = (
  gateway_of s (record { backends = s.backends; next_index = 0 }),
  ap (Option.map (gateway_of s)) ready.selector,
)

-- Once the settings are loaded and the address is bound, the program comes to its loop, if there are
-- certificates to trust where TLS is on, and the rotator can start where rotation is on. No settings
-- that were loaded make it panic for want of a backend.
pub main-reaches :
    (host : Host) (env : Surroundings) (file : Option (Option File)) (s : Settings)
    → ((read : File) → file ≡ some (some read) → IsU16File read)
    → load host file ≡ some s
    → env.bind (listen_addr s) ≡ ok tt
    → (s.backend_tls.mode ≡ BackendTlsMode.explicit
        → (roots : List Bytes) × Trusts env.library s.backend_tls.ca_file roots)
    → (s.backend_source.mode ≡ BackendSourceMode.rotate
        → (r : State) × (Refresh.start env.interfaces s.backend_source.interfaces
            ≡ Refresh.Started.started r))
    → (p : Shared) × (main host env file ≡ made p)
unfolding main prepare
main-reaches host env file s typed loads bound trusts starts =
    let (g, built) = start-made host s (load-IsReady host file s typed loads) in
    let (tls, secured) = tls_part-made env s s.backend_tls.mode trusts in
    let (rotator, rotates) = rotator_part-made env s s.backend_source.mode starts in
    (shared_of s g tls rotator, rw (loads, bound, built, secured, rotates) refl)
