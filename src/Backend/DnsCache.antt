-- ===== src/Backend/DnsCache.antt =====
-- src/backend/dns_cache.rs: resolved addresses, kept for a while. Instants are numbers of
-- milliseconds; the lookup is an argument.
pub mod Freshness
mod Tests
use iot_ftp_upload_gateway.Base.{
  ℕ, ◌+◌, ◌-◌, Bool, List, [], ◌∷◌, ◌++◌, Option, none, some, ltb, if◌then◌else◌, Text, show,
  lookup, insert, text_key,
}
use iot_ftp_upload_gateway.Io.{IoResult, ok, err}
use iot_ftp_upload_gateway.Net.{SocketAddr}

-- 30 seconds.
abbrev pub dns_cache_ttl : ℕ
dns_cache_ttl = 30000

pub record CacheEntry : Type 0 where
  pub addrs : List SocketAddr
  pub resolved_at : ℕ

pub record DnsCache : Type 0 where
  pub entries : List (Text × CacheEntry)

abbrev pub new : DnsCache
new = record { entries = [] }

-- `elapsed() < DNS_CACHE_TTL`.
abbrev pub if_fresh : ℕ → Option CacheEntry → Option (List SocketAddr)
if_fresh now none = none
if_fresh now (some entry) =
    if ltb (now - entry.resolved_at) dns_cache_ttl then some entry.addrs else none

unfoldable pub cached : Text → ℕ → DnsCache → Option (List SocketAddr)
cached key now cache = if_fresh now (lookup key cache.entries)

abbrev pub key_of : Text → ℕ → Text
key_of host port = host ++ b':' ∷ show port

-- The lookup's answer, kept under the key if it is one; `stored` is when it came.
abbrev pub keep_answer :
    Text → ℕ → IoResult (List SocketAddr) → DnsCache → IoResult (List SocketAddr) × DnsCache
keep_answer key stored (err kind) cache = (err kind, cache)
keep_answer key stored (ok addrs) cache = (
  ok addrs,
  record cache {
    entries = insert key (record { addrs = addrs; resolved_at = stored }) cache.entries;
  },
)

abbrev pub or_resolve :
    Text
    → ℕ
    → IoResult (List SocketAddr)
    → DnsCache
    → Option (List SocketAddr)
    → IoResult (List SocketAddr) × DnsCache
or_resolve key stored answer cache (some addrs) = (ok addrs, cache)
or_resolve key stored answer cache none = keep_answer key stored answer cache

unfoldable pub resolve :
    Text → ℕ → ℕ → ℕ → IoResult (List SocketAddr) → DnsCache → IoResult (List SocketAddr) × DnsCache
resolve host port now stored answer cache =
    or_resolve (key_of host port) stored answer cache (cached (key_of host port) now cache)
