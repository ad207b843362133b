-- ===== src/Server/Listener/Running.antt =====
-- When the program comes to its loop, and what its parts are then.
use iot_ftp_upload_gateway.Base.{◌≡◌, refl, sym, ap, ◌∙◌, subst, Option, none, some}
use iot_ftp_upload_gateway.Io.{IoResult, ok, err}
use iot_ftp_upload_gateway.Config.Settings.{BackendTlsMode, BackendSourceMode, Settings}
use iot_ftp_upload_gateway.Config.File.{File}
use iot_ftp_upload_gateway.Config.Load.{Host, load}
use iot_ftp_upload_gateway.Config.Ready.{IsU16File, IsReady, load-IsReady}
use iot_ftp_upload_gateway.Backend.Rotator.{State}
use iot_ftp_upload_gateway.Backend.Rotator.Refresh
use iot_ftp_upload_gateway.Backend.Rotator.Offered.{IsNonempty, start_with-IsNonempty}
use iot_ftp_upload_gateway.Backend.Tls.Connector
use iot_ftp_upload_gateway.Backend.Tls.Connector.{BackendTlsConnector, Built, built, failed}
use iot_ftp_upload_gateway.Backend.Tls.Trust.{Trusts, new-built}
use iot_ftp_upload_gateway.Server.Listener.{Gateway, start}
use iot_ftp_upload_gateway.Server.Listener.Start.{
  Surroundings, Part, made, missing, Shared, shared_of, of_built, tls_part, of_started,
  rotator_part, listen_addr, assemble, prepare, prepare_loaded, main,
}

-- TLS toward the backends as it is configured: off, or with a connector that trusts what it may.
pub data SpeaksTls (env : Surroundings) (s : Settings) : Option BackendTlsConnector → Type 0 where
  plain : s.backend_tls.mode ≡ BackendTlsMode.off → SpeaksTls env s none
  secure :
      {c : BackendTlsConnector}
      → s.backend_tls.mode ≡ BackendTlsMode.explicit
      → Trusts env.library s.backend_tls.ca_file c.connector.roots
      → c.server_name ≡ s.backend_tls.server_name
      → SpeaksTls env s (some c)

-- The source addresses as they are configured: the system's choice, or a rotator that has some.
pub data Rotates (s : Settings) : Option State → Type 0 where
  fixed : s.backend_source.mode ≡ BackendSourceMode.off → Rotates s none
  rotating :
      {r : State}
      → s.backend_source.mode ≡ BackendSourceMode.rotate
      → IsNonempty r.sources
      → Rotates s (some r)

pub record IsRunning (env : Surroundings) (p : Shared) : Type 0 where
  pub bound : env.bind (listen_addr p.config) ≡ ok tt
  pub gateway : start p.config ≡ some p.gateway
  pub tls : SpeaksTls env p.config p.backend_tls
  pub sources : Rotates p.config p.source_rotator

of_built-SpeaksTls :
    (env : Surroundings) (s : Settings) (found : Built) (tls : Option BackendTlsConnector)
    → s.backend_tls.mode ≡ BackendTlsMode.explicit
    → Connector.new env.library s.backend_tls env.resumption ≡ found
    → of_built found ≡ made tls
    → SpeaksTls env s tls
of_built-SpeaksTls env s (failed f) tls on found e = absurd (cc)
of_built-SpeaksTls env s (built c) tls on found e =
    let same : Option.some c ≡ tls = cc in
    let (trusts, name) = new-built env.library s.backend_tls env.resumption c found in
    subst (SpeaksTls env s) same (secure on trusts name)

tls_part-SpeaksTls :
    (env : Surroundings) (s : Settings) (mode : BackendTlsMode) (tls : Option BackendTlsConnector)
    → s.backend_tls.mode ≡ mode
    → tls_part env s mode ≡ made tls
    → SpeaksTls env s tls
tls_part-SpeaksTls env s BackendTlsMode.off tls on e =
    let same : Option.none ≡ tls = cc in subst (SpeaksTls env s) same (plain on)
tls_part-SpeaksTls env s BackendTlsMode.explicit tls on e = of_built-SpeaksTls env s _ tls on refl e

of_started-Rotates :
    (s : Settings) (found : Refresh.Started) (rotator : Option State)
    → s.backend_source.mode ≡ BackendSourceMode.rotate
    → ((r : State) → found ≡ Refresh.Started.started r → IsNonempty r.sources)
    → of_started found ≡ made rotator
    → Rotates s rotator
of_started-Rotates s Refresh.Started.no_usable_sources rotator on some_sources e = absurd (cc)
of_started-Rotates s (Refresh.Started.listing_failed kind) rotator on some_sources e = absurd (cc)
of_started-Rotates s (Refresh.Started.started r) rotator on some_sources e =
    let same : Option.some r ≡ rotator = cc in
    subst (Rotates s) same (rotating on (some_sources r refl))

rotator_part-Rotates :
    (env : Surroundings) (s : Settings) (mode : BackendSourceMode) (rotator : Option State)
    → s.backend_source.mode ≡ mode
    → rotator_part env s mode ≡ made rotator
    → Rotates s rotator
unfolding Refresh.start
rotator_part-Rotates env s BackendSourceMode.off rotator on e =
    let same : Option.none ≡ rotator = cc in subst (Rotates s) same (fixed on)
rotator_part-Rotates env s BackendSourceMode.rotate rotator on e =
    of_started-Rotates s (Refresh.start env.interfaces s.backend_source.interfaces) rotator on
      (start_with-IsNonempty _) e

assemble-made :
    (s : Settings) (b : IoResult Unit) (g : Option Gateway) (t : Part (Option BackendTlsConnector))
    (r : Part (Option State)) (p : Shared)
    → assemble s b g t r ≡ made p
    → (b ≡ ok tt)
      × (g ≡ some p.gateway)
      × (t ≡ made p.backend_tls)
      × (r ≡ made p.source_rotator)
      × (s ≡ p.config)
assemble-made s (err kind) g t r p e = absurd (cc)
assemble-made s (ok _) none t r p e = absurd (cc)
assemble-made s (ok _) (some g) (missing f) r p e = absurd (cc)
assemble-made s (ok _) (some g) (made t) (missing f) p e = absurd (cc)
assemble-made s (ok _) (some g) (made t) (made r) p e =
    let same : shared_of s g t r ≡ p = cc in
    (
      refl,
      ap (λ (q : Shared). some q.gateway) same,
      ap (λ (q : Shared). made q.backend_tls) same,
      ap (λ (q : Shared). made q.source_rotator) same,
      ap (λ (q : Shared). q.config) same,
    )

prepare-IsRunning :
    (env : Surroundings) (s : Settings) (p : Shared)
    → prepare env s ≡ made p
    → IsRunning env p × (p.config ≡ s)
unfolding prepare
prepare-IsRunning env s p e =
    let (bound, gateway, tls, sources, same) = assemble-made s _ _ _ _ p e in
    (
      record {
        bound = ap (λ (q : Settings). env.bind (listen_addr q)) (sym same) ∙ bound;
        gateway = ap start (sym same) ∙ gateway;
        tls =
            subst (λ (q : Settings). SpeaksTls env q p.backend_tls) same
              (tls_part-SpeaksTls env s s.backend_tls.mode p.backend_tls refl tls);
        sources =
            subst (λ (q : Settings). Rotates q p.source_rotator) same
              (rotator_part-Rotates env s s.backend_source.mode p.source_rotator refl sources);
      },
      sym same,
    )

prepare_loaded-IsRunning :
    (host : Host) (env : Surroundings) (file : Option (Option File)) (r : Option Settings)
    (p : Shared)
    → ((read : File) → file ≡ some (some read) → IsU16File read)
    → load host file ≡ r
    → prepare_loaded env r ≡ made p
    → IsReady host p.config × IsRunning env p
prepare_loaded-IsRunning host env file none p typed loads e = absurd (cc)
prepare_loaded-IsRunning host env file (some s) p typed loads e =
    let (running, same) = prepare-IsRunning env s p e in
    (subst (IsReady host) (sym same) (load-IsReady host file s typed loads), running)

-- A program that comes to its loop has settings that are fit for use, its address is bound, and its
-- parts are as configured: the backends are there; where TLS is on, there is a connector, which
-- trusts the bundled certificates or just those of the configured file and verifies the configured
-- name; where rotation is on, there is a rotator with a source address. The ports of the file must be
-- 16-bit numbers.
pub main-IsRunning :
    (host : Host) (env : Surroundings) (file : Option (Option File)) (p : Shared)
    → ((read : File) → file ≡ some (some read) → IsU16File read)
    → main host env file ≡ made p
    → IsReady host p.config × IsRunning env p
unfolding main
main-IsRunning host env file p typed e =
    prepare_loaded-IsRunning host env file (load host file) p typed refl e
