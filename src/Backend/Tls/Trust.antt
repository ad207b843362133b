-- ===== src/Backend/Tls/Trust.antt =====
-- Which certificates a connector trusts.
use iot_ftp_upload_gateway.Base.{
  ℕ, ◌+◌, ◌<◌, ◌≡◌, ◌≢◌, ◌↔◌, refl, sym, ap, subst, ◌∙◌, true, List, [], ◌∷◌, ◌++◌, append_assoc,
  append-nil, map, Option, none, some, arith, length, All, Text, Bytes, Bool-cases, inl, inr,
}
use iot_ftp_upload_gateway.Config.Settings.{BackendTlsConfig}
use iot_ftp_upload_gateway.Backend.Tls.Connector.{
  TlsLibrary, Resumption, BackendTlsConnector, Roots, trusted, refused, add_each, of_file, roots_of,
  versions_of, built, connector_of, with_roots, new,
}

-- The roots that a choice of file stands for: the bundled ones where there is none, and otherwise
-- just the certificates of the file, one at least, each readable and usable.
pub data Trusts (lib : TlsLibrary) : Option Text → List Bytes → Type 0 where
  bundled : Trusts lib none lib.webpki_roots
  own :
      {path : Text} {certs : List Bytes}
      → lib.pem_file_iter path ≡ some (map some certs)
      → All (λ cert. lib.is_usable cert ≡ true) certs
      → certs ≢ []
      → Trusts lib (some path) certs

record Added (lib : TlsLibrary) (certs : List (Option Bytes)) (roots : List Bytes) (added : ℕ)
    (all : List Bytes) : Type 0 where
  given : List Bytes
  readable : certs ≡ map some given
  usable : All (λ cert. lib.is_usable cert ≡ true) given
  joined : all ≡ roots ++ given
  filled : 0 < added + length given

add_each-Added :
    (lib : TlsLibrary) (certs : List (Option Bytes)) (roots : List Bytes) (added : ℕ)
    (all : List Bytes)
    → add_each lib certs roots added ≡ trusted all
    → Added lib certs roots added all
unfolding add_each
add_each-Added lib [] roots added all e = record {
  given = [];
  readable = refl;
  usable = tt;
  joined = ground (arith, e, append-nil roots);
  filled = ground (arith, e);
}
add_each-Added lib (none ∷ certs) roots added all e = absurd (cc)
add_each-Added lib (some cert ∷ certs) roots added all e = elim (Bool-cases (lib.is_usable cert)) [
  | inl fits ↦
      let r =
        add_each-Added lib certs (roots ++ cert ∷ []) (added + 1) all (ground (arith, e, fits)) in
      record {
        given = cert ∷ r.given;
        readable = ap (λ cs. some cert ∷ cs) r.readable;
        usable = (fits, r.usable);
        joined = r.joined ∙ append_assoc roots (cert ∷ []) r.given;
        filled = omega arith;
      }
  | inr unfit ↦ absurd (ground (arith, e, unfit))
]

add_each-trusted :
    (lib : TlsLibrary) (given roots : List Bytes) (added : ℕ)
    → All (λ cert. lib.is_usable cert ≡ true) given
    → 0 < added + length given
    → add_each lib (map some given) roots added ≡ trusted (roots ++ given)
unfolding add_each
add_each-trusted lib [] roots added h filled = ground (arith, filled, append-nil roots)
add_each-trusted lib (cert ∷ given) roots added h filled = rw (h.0) (
    add_each-trusted lib given (roots ++ cert ∷ []) (added + 1) h.1 (omega arith)
    ∙ ap trusted (append_assoc roots (cert ∷ []) given))

filled-cons : (certs : List Bytes) → 0 < length certs → certs ≢ []
filled-cons [] h = absurd (omega arith)
filled-cons (cert ∷ certs) h = λ e. cc

length-filled : (certs : List Bytes) → certs ≢ [] → 0 < length certs
length-filled [] h = absurd (h refl)
length-filled (cert ∷ certs) h = omega arith

of_file-Trusts :
    (lib : TlsLibrary) (path : Text) (found : Option (List (Option Bytes))) (roots : List Bytes)
    → lib.pem_file_iter path ≡ found
    → of_file lib found ≡ trusted roots
    → Trusts lib (some path) roots
of_file-Trusts lib path none roots read e = absurd (cc)
of_file-Trusts lib path (some certs) roots read e =
    let r = add_each-Added lib certs [] 0 roots e in
    subst (Trusts lib (some path)) (sym r.joined)
      (own (read ∙ ap some r.readable) r.usable (filled-cons r.given (omega (arith, r.filled))))

roots_of-Trusts :
    (lib : TlsLibrary) (ca_file : Option Text) (roots : List Bytes)
    → roots_of lib ca_file ≡ trusted roots
    → Trusts lib ca_file roots
roots_of-Trusts lib none roots e =
    let same : lib.webpki_roots ≡ roots = cc in subst (Trusts lib none) same bundled
roots_of-Trusts lib (some path) roots e = of_file-Trusts lib path _ roots refl e

Trusts-roots_of :
    (lib : TlsLibrary) (ca_file : Option Text) (roots : List Bytes)
    → Trusts lib ca_file roots
    → roots_of lib ca_file ≡ trusted roots
Trusts-roots_of lib _ _ bundled = refl
Trusts-roots_of lib _ _ (own {path} {certs} read usable filled) =
    rw read (add_each-trusted lib certs [] 0 usable (omega (arith, length-filled certs filled)))

-- A connector with these roots, and all else as it is configured.
abbrev pub trusting : BackendTlsConfig → Resumption → List Bytes → BackendTlsConnector
trusting config resumption roots =
    connector_of
      (record { roots = roots; versions = versions_of config.max_version; resumption = resumption })
      config.server_name

with_roots-built :
    (config : BackendTlsConfig) (resumption : Resumption) (found : Roots) (roots : List Bytes)
    → (with_roots config resumption found ≡ built (trusting config resumption roots))
      ↔ (found ≡ trusted roots)
with_roots-built config resumption (refused e) roots = (λ h. absurd (cc), λ h. absurd (cc))
with_roots-built config resumption (trusted own_roots) roots = (
  λ h.
      let same : trusting config resumption own_roots ≡ trusting config resumption roots = cc in
      ap (λ (c : BackendTlsConnector). trusted c.config.roots) same,
  λ h.
      let same : own_roots ≡ roots = cc in
      ap (λ (rs : List Bytes). built (trusting config resumption rs)) same,
)

-- A connector that trusts some certificates is built exactly where they are the bundled ones and no
-- file of authorities is configured, or where they are just the certificates of that file, all of
-- them readable and usable, and one at least.
pub new-Trusts :
    (lib : TlsLibrary) (config : BackendTlsConfig) (resumption : Resumption) (roots : List Bytes)
    → (new lib config resumption ≡ built (trusting config resumption roots))
      ↔ Trusts lib config.ca_file roots
unfolding new
new-Trusts lib config resumption roots =
    let (found, made) = with_roots-built config resumption (roots_of lib config.ca_file) roots in
    (
      λ h. roots_of-Trusts lib config.ca_file roots (found h),
      λ h. made (Trusts-roots_of lib config.ca_file roots h),
    )

with_roots-trusting :
    (config : BackendTlsConfig) (resumption : Resumption) (found : Roots) (c : BackendTlsConnector)
    → with_roots config resumption found ≡ built c
    → trusting config resumption c.connector.roots ≡ c
with_roots-trusting config resumption (refused e) c h = absurd (cc)
with_roots-trusting config resumption (trusted roots) c h =
    let same : trusting config resumption roots ≡ c = cc in
    ap (λ (d : BackendTlsConnector). trusting config resumption d.connector.roots) (sym same) ∙ same

-- A connector that is built trusts what it may, and verifies the name that is configured.
pub new-built :
    (lib : TlsLibrary) (config : BackendTlsConfig) (resumption : Resumption)
    (c : BackendTlsConnector)
    → new lib config resumption ≡ built c
    → Trusts lib config.ca_file c.connector.roots × (c.server_name ≡ config.server_name)
unfolding new
new-built lib config resumption c h =
    let same = with_roots-trusting config resumption (roots_of lib config.ca_file) c h in
    (
      (new-Trusts lib config resumption c.connector.roots).0 (h ∙ ap built (sym same)),
      ap (λ (d : BackendTlsConnector). d.server_name) (sym same),
    )
