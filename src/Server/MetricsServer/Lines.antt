-- ===== src/Server/MetricsServer/Lines.antt =====
-- What a bounded read takes from a peer.
use iot_ftp_upload_gateway.Base.{
  ℕ, zero, suc, ◌+◌, ◌≤◌, ◌≡◌, refl, sym, ap, subst, ◌∙◌, Bool, [], ◌∷◌, ◌++◌, Option, none, some,
  arith, ◌==◌, if◌then◌else◌, length, length-append, append_assoc, lf, Text, Bytes, decode,
  Bool-cases, inl, inr,
}
use iot_ftp_upload_gateway.Io.{ErrorKind, ok, err}
use iot_ftp_upload_gateway.Server.MetricsServer.{
  Peer, take_line, Line, decoded, is_cut, line_or_failure, read_line,
}

take_line-append : (cap : ℕ) (s : Bytes) → s ≡ (take_line cap s).0 ++ (take_line cap s).1
unfolding take_line
take_line-append zero s = refl
take_line-append (suc cap) [] = refl
take_line-append (suc cap) (c ∷ s) = elim (Bool-cases (c == lf)) [
  | inl end ↦ rw end refl
  | inr inside ↦ rw (inside) (ap (λ (r : Bytes). c ∷ r) (take_line-append cap s))
]

take_line-le : (cap : ℕ) (s : Bytes) → length (take_line cap s).0 ≤ cap
unfolding take_line
take_line-le zero s = omega arith
take_line-le (suc cap) [] = omega arith
take_line-le (suc cap) (c ∷ s) = ground (arith, take_line-le cap s)

-- From one peer to another at most so many bytes are read.
pub record Within (limit : ℕ) (peer later : Peer) : Type 0 where
  pub used : Bytes
  pub parts : peer.bytes ≡ used ++ later.bytes
  pub size_le : length used ≤ limit

pub Within-append :
    (m n limit : ℕ) (a b c : Peer) → m + n ≤ limit → Within m a b → Within n b c → Within limit a c
Within-append m n limit a b c h v w = record {
  used = v.used ++ w.used;
  parts =
      v.parts ∙ ap (λ (r : Bytes). v.used ++ r) w.parts ∙ sym (append_assoc v.used w.used c.bytes);
  size_le = omega (arith, h, v.size_le, w.size_le, length-append v.used w.used);
}

pub Within-nothing : (limit : ℕ) (peer : Peer) → Within limit peer peer
Within-nothing limit peer = record { used = []; parts = refl; size_le = omega arith }

-- A line is its own size, and that is within the limit.
pub record IsRead (cap : ℕ) (peer : Peer) (line : Line) : Type 0 where
  pub within : Within line.size peer line.later
  pub size_le : line.size ≤ cap

decoded-IsRead :
    (cap : ℕ) (peer later : Peer) (bytes : Bytes) (text : Option Text) (line : Line)
    → peer.bytes ≡ bytes ++ later.bytes
    → length bytes ≤ cap
    → decoded bytes later text ≡ ok line
    → IsRead cap peer line
decoded-IsRead cap peer later bytes none line p h e = cc
decoded-IsRead cap peer later bytes (some text) line p h e =
    let made : Line = record { size = length bytes; text = text; later = later } in
    let same : made ≡ line = cc in
    subst (IsRead cap peer) same
      (record { within = record { used = bytes; parts = p; size_le = omega arith }; size_le = h })

line_or_failure-IsRead :
    (cap : ℕ) (peer : Peer) (cut : Bytes × Bytes) (failure : Option ErrorKind) (line : Line)
    → peer.bytes ≡ cut.0 ++ cut.1
    → length cut.0 ≤ cap
    → line_or_failure cap cut failure ≡ ok line
    → IsRead cap peer line
line_or_failure-IsRead cap peer (bytes, rest) none line p h e =
    decoded-IsRead cap peer (record { bytes = rest; failure = none }) bytes (decode bytes) line p h
      e
line_or_failure-IsRead cap peer (bytes, rest) (some kind) line p h e =
    elim (Bool-cases (is_cut cap bytes)) [
      | inl cut ↦ ground (arith, cut, e)
      | inr whole ↦
          decoded-IsRead cap peer (record { bytes = rest; failure = some kind }) bytes
            (decode bytes) line p h
            (ap
                (λ (c : Bool).
                  if c
                  then err kind
                  else decoded bytes (record { bytes = rest; failure = some kind }) (decode bytes))
                (sym whole)
              ∙ e)
    ]

pub read_line-IsRead :
    (cap : ℕ) (peer : Peer) (line : Line) → read_line cap peer ≡ ok line → IsRead cap peer line
unfolding read_line
read_line-IsRead cap peer line e =
    line_or_failure-IsRead cap peer (take_line cap peer.bytes) peer.failure line
      (take_line-append cap peer.bytes) (take_line-le cap peer.bytes) e
