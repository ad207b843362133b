-- ===== src/Config/Ready.antt =====
-- Settings that were loaded are fit for the parts of the gateway that are built from them.
use iot_ftp_upload_gateway.Base.{
  ◌≤◌, ◌<◌, ◌≡◌, ◌≢◌, refl, subst, sym, ◌∙◌, true, false, [], ◌++◌, Option, none, some, arith, any,
  All, Text, u16_max, >>=-eq-some, Bool-cases, inl, inr,
}
use iot_ftp_upload_gateway.Pasv.PortManager
use iot_ftp_upload_gateway.Pasv.PortManager.{capacity}
use iot_ftp_upload_gateway.Backend.Selector
use iot_ftp_upload_gateway.Config.Ranges.{HasPorts}
use iot_ftp_upload_gateway.Config.Settings.{explicit, rotate, Settings, default_settings}
use iot_ftp_upload_gateway.Config.File.{
  File, read_file, backends_of, IsU16Entry, backends_of-HasPorts,
}
use iot_ftp_upload_gateway.Config.Load.{
  Host, overrides, apply_env_overrides, is_blank, validate, if_valid, file_or_default, load,
}
use iot_ftp_upload_gateway.Config.Typed.{IsTyped, some_inj, overrides-Keeps, apply_each-IsTyped}

-- What the parts of the gateway want of the settings.
pub record IsReady (host : Host) (s : Settings) : Type 0 where
  -- the selector is built, and every backend has its ports
  pub selector : Selector.new s.backends ≡ some (record { backends = s.backends; next_index = 0 })
  pub ports : All HasPorts s.backends
  -- the pool of passive ports works, and has two ports or more
  pub pool : PortManager.IsValid (PortManager.new s.passive.port_range)
  pub two_ports : 2 ≤ capacity (PortManager.new s.passive.port_range)
  pub ca_file :
      s.backend_tls.mode ≡ explicit
      → (path : Text) → s.backend_tls.ca_file ≡ some path
      → host.is_file path ≡ true
  pub server_name : s.backend_tls.mode ≡ explicit → s.backend_tls.server_name ≢ some []
  pub refresh : s.backend_source.mode ≡ rotate → 0 < s.backend_source.refresh_secs
  pub named :
      s.backend_source.mode ≡ rotate
      → any is_blank (
          s.backend_source.interfaces.include_interfaces
          ++ s.backend_source.interfaces.exclude_interfaces)
        ≡ false

-- Every check has its purpose.
validate-IsReady :
    (host : Host) (s : Settings) → IsTyped s → validate host s ≡ true → IsReady host s
unfolding validate Selector.new PortManager.new capacity
validate-IsReady host s t v = record {
  selector = ground (arith, v);
  ports = t.2;
  pool = ground (arith, v, t);
  two_ports = ground (arith, v, t);
  ca_file = λ on path e. ground (arith, v, on, e);
  server_name = λ on e. ground (arith, v, on, e);
  refresh = λ on. ground (arith, v, on);
  named = λ on. ground (arith, v, on);
}

-- The numbers of a file are 16-bit numbers where their types are.
abbrev pub IsU16File : File → Type 0
IsU16File file =
    (file.settings.passive.port_range.start ≤ u16_max)
    × (file.settings.passive.port_range.end ≤ u16_max)
    × All IsU16Entry file.backends

read_file-IsTyped :
    (file : File) (given : Settings) → IsU16File file → read_file file ≡ some given → IsTyped given
read_file-IsTyped file given typed e =
    let (bs, read, made) = >>=-eq-some (backends_of file.backends) _ e in
    subst IsTyped (some_inj (record file.settings { backends = bs }) given made)
      (typed.0, typed.1, backends_of-HasPorts file.backends bs typed.2 read)

file_or_default-IsTyped :
    (file : Option (Option File)) (given : Settings)
    → ((read : File) → file ≡ some (some read) → IsU16File read)
    → file_or_default file ≡ some given
    → IsTyped given
file_or_default-IsTyped none given typed e =
    subst IsTyped (some_inj default_settings given e) (omega arith, omega arith, tt)
file_or_default-IsTyped (some none) given typed e = cc
file_or_default-IsTyped (some (some read)) given typed e =
    read_file-IsTyped read given (typed read refl) e

if_valid-IsReady :
    (host : Host) (settings s : Settings)
    → IsTyped settings
    → if_valid host settings ≡ some s
    → IsReady host s
if_valid-IsReady host settings s t e = elim (Bool-cases (validate host settings)) [
  | inl valid ↦
      subst (IsReady host) (some_inj settings s (sym (rw valid refl) ∙ e))
        (validate-IsReady host settings t valid)
  | inr invalid ↦ ground (arith, e, invalid)
]

-- Whatever the variables and the file, in which the ports are 16-bit numbers: settings that were
-- loaded are fit for use. The selector can be built, every backend has its ports, the pool of passive
-- ports is valid and has two ports or more; with TLS the file of authorities is there and the name
-- is not empty; with rotation the time between listings is not 0 and no name is blank.
pub load-IsReady :
    (host : Host) (file : Option (Option File)) (s : Settings)
    → ((read : File) → file ≡ some (some read) → IsU16File read)
    → load host file ≡ some s
    → IsReady host s
unfolding load apply_env_overrides
load-IsReady host file s typed e =
    let (given, read, later) = >>=-eq-some (file_or_default file) _ e in
    let (settings, applied, checked) = >>=-eq-some (apply_env_overrides host given) _ later in
    if_valid-IsReady host settings s
      (apply_each-IsTyped (overrides host) (overrides-Keeps host) given settings
        (file_or_default-IsTyped file given typed read) applied)
      checked
