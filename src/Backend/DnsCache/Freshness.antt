-- ===== src/Backend/DnsCache/Freshness.antt =====
-- For how long a resolved name is answered from the cache.
use iot_ftp_upload_gateway.Base.{
  ℕ, ◌-◌, ◌≡◌, refl, ap, ◌∙◌, Bool, true, false, List, Option, none, some, ltb, if◌then◌else◌, Text,
  lookup, insert, lookup-insert, beq_refl, text_key,
}
use iot_ftp_upload_gateway.Io.{IoResult, ok, err}
use iot_ftp_upload_gateway.Net.{SocketAddr}
use iot_ftp_upload_gateway.Backend.DnsCache.{
  DnsCache, CacheEntry, dns_cache_ttl, if_fresh, cached, key_of, keep_answer, or_resolve, resolve,
}

cached-insert :
    (key : Text) (now : ℕ) (entry : CacheEntry) (cache : DnsCache)
    → cached key now (record cache { entries = insert key entry cache.entries })
      ≡ if_fresh now (some entry)
unfolding cached
cached-insert key now entry cache = ap (if_fresh now) (
    lookup-insert key key entry cache.entries
    ∙ ap (λ (b : Bool). if b then some entry else lookup key cache.entries) (beq_refl key))

fresh_if :
    (now : ℕ) (entry : CacheEntry) (b : Bool)
    → ltb (now - entry.resolved_at) dns_cache_ttl ≡ b
    → if_fresh now (some entry) ≡ (if b then some entry.addrs else none)
fresh_if now entry b e = ap (λ (c : Bool). if c then some entry.addrs else none) e

-- A name that was looked up is answered from the cache, without regard to the resolver, until the
-- time to live is over, and from then on is looked up anew.
pub resolve-resolve :
    (host : Text) (port now stored later stored' : ℕ) (addrs : List SocketAddr)
    (answer : IoResult (List SocketAddr)) (cache : DnsCache)
    → cached (key_of host port) now cache ≡ none
    → (resolve host port later stored' answer (resolve host port now stored (ok addrs) cache).1).0
      ≡ (if ltb (later - stored) dns_cache_ttl then ok addrs else answer)
unfolding resolve
resolve-resolve host port now stored later stored' addrs answer cache missing =
    ap
      (λ (r : Option (List SocketAddr)).
        (resolve host port later stored' answer
          (or_resolve (key_of host port) stored (ok addrs) cache r).1).0)
      missing
    ∙ ap (λ (r : Option (List SocketAddr)). (or_resolve (key_of host port) stored' answer kept r).0)
        (cached-insert (key_of host port) later (record { addrs = addrs; resolved_at = stored })
          cache)
    ∙ by_age (ltb (later - stored) dns_cache_ttl) answer
  where
    kept : DnsCache
    kept = (keep_answer (key_of host port) stored (ok addrs) cache).1

    by_age :
        (b : Bool) (answer : IoResult (List SocketAddr))
        → (or_resolve (key_of host port) stored' answer kept (if b then some addrs else none)).0
          ≡ (if b then ok addrs else answer)
    by_age true answer = refl
    by_age false (ok found) = refl
    by_age false (err kind) = refl
