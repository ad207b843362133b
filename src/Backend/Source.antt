-- ===== src/Backend/Source.antt =====
-- src/backend/source.rs: which addresses of the host connections to backends may come from. The
-- listing of interfaces is an argument. A position in a text is the text that is left from there.
pub mod Selection
pub mod Pattern
pub mod Glob
mod Tests
use iot_ftp_upload_gateway.Base.{
  ℕ, zero, suc, ◌+◌, ◌*◌, ◌/◌, ◌^◌, Bool, true, false, not, ◌&&◌, ◌||◌, List, [], ◌∷◌, Option, none,
  some, map, ◌==◌, if◌then◌else◌, Text, codes, any, all, keep, length, trim, split_once,
}
use iot_ftp_upload_gateway.Io.{IoResult, ok, err}
use iot_ftp_upload_gateway.Net.{Ipv4Addr, octet}
use iot_ftp_upload_gateway.Backend.Rotator.{sort, dedup}

pub record InterfaceAddr : Type 0 where
  pub interface : Text
  pub ip : Ipv4Addr

-- The part of `BackendSourceConfig` of src/config.rs that the selection reads.
pub record BackendSourceConfig : Type 0 where
  pub include_interfaces : List Text
  pub exclude_interfaces : List Text

-- Where the last `*` was: the pattern after it, and the text from which it may take more.
abbrev pub Star : Type 0
Star = Option (Text × Text)

-- The third branch of the loop, and the fourth.
abbrev pub retry : Star → (Text → Text → Star → Bool) → Bool
retry none next = false
retry (some (p, [])) next = false
retry (some (p, c ∷ t)) next = next p t (some (p, t))

-- What the loop makes of one character of each: the first two conditions.
pub data Turn : Type 0 where
  consume star_met mismatch : Turn

abbrev pub turn_of : ℕ → ℕ → Turn
turn_of d c = if d == b'?' || d == c then consume else if d == b'*' then star_met else mismatch

-- The loop, `p` and `t` being what is left from the two positions.
unfoldable pub glob_loop : ℕ → Text → Text → Star → Bool
glob_loop zero p t star = false
glob_loop (suc f) p [] star = all (λ c. c == b'*') p
glob_loop (suc f) [] (c ∷ t) star = retry star (glob_loop f)
glob_loop (suc f) (d ∷ p) (c ∷ t) star = elim (turn_of d c) [
  | consume ↦ glob_loop f p t star
  | star_met ↦ glob_loop f p (c ∷ t) (some (p, c ∷ t))
  | mismatch ↦ retry star (glob_loop f)
]

unfoldable pub glob_match : Text → Text → Bool
glob_match pattern text = glob_loop ((length text + 1) * (length pattern + 1)) pattern text none

abbrev pub or_alias : Text → Option (Text × Text) → Bool
or_alias pattern none = false
or_alias pattern (some (interface, _)) = glob_match pattern interface

unfoldable pub matches_name : Text → Text → Bool
matches_name pattern name = glob_match pattern name || or_alias pattern (split_once b':' name)

unfoldable pub matches_any : List Text → Text → Bool
matches_any patterns name = any (λ pattern. matches_name (trim pattern) name) patterns

abbrev pub built_in_virtual_interfaces : List Text
built_in_virtual_interfaces =
    codes "lo"
    ∷ codes "docker*"
    ∷ codes "br-*"
    ∷ codes "veth*"
    ∷ codes "virbr*"
    ∷ codes "cni*"
    ∷ codes "flannel*"
    ∷ codes "cali*"
    ∷ codes "tun*"
    ∷ codes "tap*"
    ∷ codes "tailscale*"
    ∷ codes "wg*"
    ∷ []

abbrev pub is_unspecified : Ipv4Addr → Bool
is_unspecified ip = ip == 0

abbrev pub is_loopback : Ipv4Addr → Bool
is_loopback ip = octet 0 ip == 127

abbrev pub is_link_local : Ipv4Addr → Bool
is_link_local ip = octet 0 ip == 169 && octet 1 ip == 254

-- The second filter.
abbrev pub is_candidate : BackendSourceConfig → InterfaceAddr → Bool
is_candidate config addr =
    if not (length config.include_interfaces == 0)
    then matches_any config.include_interfaces addr.interface
    else not (is_loopback addr.ip)
      && not (is_link_local addr.ip)
      && not (any (λ pattern. matches_name pattern addr.interface) built_in_virtual_interfaces)

-- The three filters together.
abbrev pub is_selected : BackendSourceConfig → InterfaceAddr → Bool
is_selected config addr =
    not (is_unspecified addr.ip)
    && is_candidate config addr
    && not (matches_any config.exclude_interfaces addr.interface)

unfoldable pub select_sources : List InterfaceAddr → BackendSourceConfig → List Ipv4Addr
select_sources addrs config = dedup (sort (map (λ addr. addr.ip) (keep (is_selected config) addrs)))

unfoldable pub resolve_sources :
    IoResult (List InterfaceAddr) → BackendSourceConfig → IoResult (List Ipv4Addr)
resolve_sources (err kind) config = err kind
resolve_sources (ok addrs) config = ok (select_sources addrs config)
