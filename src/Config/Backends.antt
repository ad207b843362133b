-- ===== src/Config/Backends.antt =====
-- The list of backends in its text form.
use iot_ftp_upload_gateway.Base.{
  ℕ, ◌≤◌, ◌≡◌, ◌≢◌, refl, Bool, true, false, not, List, [], ◌∷◌, ◌++◌, some, arith, ◌==◌, length,
  All, All-append, keep, Text, Lacks, NoneOf, is_whitespace, trim, show, parse_uint, u16_max,
  split-append, split_last, split_once-append, rsplit_once-append, trim-NoneOf, show-IsDigit,
  IsDigit, show-Lacks, IsDigit-no_whitespace, parse_uint-show,
}
use iot_ftp_upload_gateway.Pasv.PortManager.{PortRange}
use iot_ftp_upload_gateway.Config.Ranges.{HasPorts}
use iot_ftp_upload_gateway.Config.{
  BackendConfig, parse_first_last, parse_name_list, parse_backend, parse_each, parse_backends,
}

abbrev pub show_ports : PortRange → Text
show_ports range = show range.start ++ b':' ∷ show range.end

abbrev pub show_address : BackendConfig → Text
show_address b = b.host ++ b':' ∷ show b.port

-- `host:port@first:last`.
abbrev pub show_backend : BackendConfig → Text
show_backend b = show_address b ++ b'@' ∷ show_ports b.passive_ports

-- Each backend, with a comma between two of them.
abbrev pub show_backends : List BackendConfig → Text
show_backends [] = []
show_backends (b ∷ []) = show_backend b
show_backends (b ∷ c ∷ bs) = show_backend b ++ b',' ∷ show_backends (c ∷ bs)

-- A host of visible characters other than the two that part the entries. It may hold colons.
pub record IsHost (host : Text) : Type 0 where
  pub no_whitespace : NoneOf is_whitespace host
  pub no_comma : Lacks b',' host
  pub no_at : Lacks b'@' host

show-NoneOf : (n : ℕ) → NoneOf is_whitespace (show n)
show-NoneOf n = IsDigit-no_whitespace (show n) (show-IsDigit n)

parse_trimmed : (n : ℕ) → n ≤ u16_max → parse_uint u16_max (trim (show n)) ≡ some n
parse_trimmed n h = rw (trim-NoneOf (show n) (show-NoneOf n)) (parse_uint-show u16_max n h)

parse_first_last-show :
    (range : PortRange)
    → range.start ≤ range.end
    → range.end ≤ u16_max
    → parse_first_last (show_ports range) ≡ some range
unfolding parse_first_last
parse_first_last-show range h k =
    rw
      (
        split_once-append b':' (show range.start) (show range.end)
            (show-Lacks b':' range.start (λ i. omega arith)),
        parse_trimmed range.start (omega (arith, h, k)),
        parse_trimmed range.end k,
      )
      (ground (arith, h))

module _ (b : BackendConfig) (ports : HasPorts b) (host : IsHost b.host) where
  show_address-Lacks : (c : ℕ) → ¬ IsDigit c → b':' ≢ c → Lacks c b.host → Lacks c (show_address b)
  show_address-Lacks c h k l = All-append _ b.host (b':' ∷ show b.port) l (k, show-Lacks c b.port h)

  show_backend-All :
      (P : ℕ → Type 0)
      → All P b.host
      → ((n : ℕ) → All P (show n))
      → P b':'
      → P b'@'
      → All P (show_backend b)
  show_backend-All P h d colon at =
      All-append P (show_address b) (b'@' ∷ show_ports b.passive_ports)
        (All-append P b.host (b':' ∷ show b.port) h (colon, d b.port))
        (
          at,
          All-append P (show b.passive_ports.start) (b':' ∷ show b.passive_ports.end)
              (d b.passive_ports.start) (colon, d b.passive_ports.end),
        )

  show_backend-Lacks : Lacks b',' (show_backend b)
  show_backend-Lacks =
      show_backend-All (λ d. d ≢ b',') host.no_comma (λ n. show-Lacks b',' n (λ i. omega arith))
        (λ e. omega arith) (λ e. omega arith)

  trim-show_backend : trim (show_backend b) ≡ show_backend b
  trim-show_backend =
      trim-NoneOf (show_backend b)
        (show_backend-All (λ d. is_whitespace d ≡ false) host.no_whitespace show-NoneOf refl refl)

  parse_backend-show : parse_backend (show_backend b) ≡ some b
  unfolding parse_backend
  parse_backend-show =
      rw
        (
          split_once-append b'@' (show_address b) (show_ports b.passive_ports)
              (show_address-Lacks b'@' (λ i. omega arith) (λ e. omega arith) host.no_at),
          parse_first_last-show b.passive_ports ports.start_le ports.end_le,
          rsplit_once-append b':' b.host (show b.port) (show-Lacks b':' b.port (λ i. omega arith)),
          parse_uint-show u16_max b.port ports.port_le,
        )
        refl

-- A text with something in it is kept.
abbrev named : Text → Bool
named name = not (length name == 0)

ends_named : (s t : Text) (c : ℕ) → named (s ++ c ∷ t) ≡ true
ends_named [] t c = ground arith
ends_named (d ∷ s) t c = ground arith

parse_name_list-cons :
    (s : Text) (rest : Text)
    → Lacks b',' s
    → trim s ≡ s
    → named s ≡ true
    → parse_name_list (s ++ b',' ∷ rest) ≡ s ∷ parse_name_list rest
unfolding parse_name_list
parse_name_list-cons s rest h e k = rw (split-append b',' s rest h, e) (rw (keep, k) refl)

parse_name_list_last :
    (s : Text) → Lacks b',' s → trim s ≡ s → named s ≡ true → parse_name_list s ≡ s ∷ []
unfolding parse_name_list
parse_name_list_last s h e k = rw (split_last b',' s h, e) (rw (keep, k) refl)

parse_each-cons :
    (b : BackendConfig) (entry : Text) (entries : List Text) (bs : List BackendConfig)
    → parse_backend entry ≡ some b
    → parse_each entries ≡ some bs
    → parse_each (entry ∷ entries) ≡ some (b ∷ bs)
unfolding parse_each
parse_each-cons b entry entries bs h k = rw (h, k) refl

-- A list of backends, each with its ports in range and a host of visible characters without a comma
-- or an at sign, is read back from its text form, whatever colons the hosts hold.
pub parse_backends-show_backends :
    (bs : List BackendConfig)
    → All (λ b. HasPorts b × IsHost b.host) bs
    → parse_backends (show_backends bs) ≡ some bs
unfolding parse_backends
parse_backends-show_backends [] h = unfold parse_name_list parse_each in refl
parse_backends-show_backends (b ∷ []) h =
    rw
      (parse_name_list_last (show_backend b) (show_backend-Lacks b h.0.0 h.0.1)
        (trim-show_backend b h.0.0 h.0.1) (ends_named (show_address b) _ b'@'))
      (parse_each-cons b (show_backend b) [] [] (parse_backend-show b h.0.0 h.0.1)
        (unfold parse_each in refl))
parse_backends-show_backends (b ∷ c ∷ bs) h =
    rw
      (parse_name_list-cons (show_backend b) (show_backends (c ∷ bs))
        (show_backend-Lacks b h.0.0 h.0.1) (trim-show_backend b h.0.0 h.0.1)
        (ends_named (show_address b) _ b'@'))
      (parse_each-cons b (show_backend b) _ (c ∷ bs) (parse_backend-show b h.0.0 h.0.1)
        (parse_backends-show_backends (c ∷ bs) h.1))
