-- ===== src/Server/Listener/Spec.antt =====
-- What the listener promises, without tables, guards and cursors: a connection is admitted while its
-- address has fewer live sessions than the limit, sessions are numbered from 1 on, and the backends
-- take turns.
use iot_ftp_upload_gateway.Base.{
  ℕ, ◌+◌, ◌%◌, Bool, not, ◌&&◌, List, [], ◌∷◌, leb, ◌==◌, if◌then◌else◌, length, get_elem?,
}
use iot_ftp_upload_gateway.Net.{IpAddr, ip_eq}
use iot_ftp_upload_gateway.Config.{BackendConfig}
use iot_ftp_upload_gateway.Server.Listener.{
  Event, accept_failed, accepted, session_ends, Outcome, nothing, rejected, started,
}

pub record Session : Type 0 where
  pub session_id : ℕ
  pub ip : IpAddr

-- The live sessions, and how many were admitted so far.
pub record Spec : Type 0 where
  pub live : List Session
  pub admitted : ℕ

abbrev pub spec_start : Spec
spec_start = record { live = []; admitted = 0 }

abbrev pub count : IpAddr → List Session → ℕ
count ip [] = 0
count ip (s ∷ live) = (if ip_eq s.ip ip then 1 else 0) + count ip live

abbrev pub remove : ℕ → List Session → List Session
remove id [] = []
remove id (s ∷ live) = let rest = remove id live in if s.session_id == id then live else s ∷ rest

-- No limit is 0.
abbrev pub is_full : ℕ → IpAddr → List Session → Bool
is_full limit ip live = not (limit == 0) && leb limit (count ip live)

module _ (limit : ℕ) (backends : List BackendConfig) where
  abbrev pub spec_admit : IpAddr → Spec → Outcome × Spec
  spec_admit ip s = (
    started (s.admitted + 1) (get_elem? backends (s.admitted % length backends)),
    record {
      live = record { session_id = s.admitted + 1; ip = ip } ∷ s.live;
      admitted = s.admitted + 1;
    },
  )

  unfoldable pub spec_step : Event → Spec → Outcome × Spec
  spec_step (accept_failed kind) s = (nothing, s)
  spec_step (accepted peer) s =
      if is_full limit peer.ip s.live then (rejected, s) else spec_admit peer.ip s
  spec_step (session_ends id) s = (nothing, record s { live = remove id s.live })

  unfoldable pub spec_run : List Event → Spec → List Outcome
  spec_run [] s = []
  spec_run (event ∷ events) s =
      let (outcome, after) = spec_step event s in outcome ∷ spec_run events after
