-- ===== src/Protocol/Command/Injection.antt =====
-- What the test for embedded line breaks finds.
use iot_ftp_upload_gateway.Base.{
  ℕ, ◌≡◌, refl, ◌↔◌, false, [], ◌∷◌, arith, Text, cr, lf, contains, Lacks,
}
use iot_ftp_upload_gateway.Protocol.Command.{has_embedded_line_break}

contains-Lacks : (c : ℕ) (s : Text) → contains c s ≡ false → Lacks c s
contains-Lacks c [] h = tt
contains-Lacks c (d ∷ s) h = (λ e. ground arith, contains-Lacks c s (ground arith))

pub Lacks-contains : (c : ℕ) (s : Text) → Lacks c s → contains c s ≡ false
Lacks-contains c [] h = refl
Lacks-contains c (d ∷ s) h = ground (arith, Lacks-contains c s h.1)

-- A line passes the test exactly when it holds neither a carriage return nor a line feed.
pub has_embedded_line_break_iff :
    (s : Text) → (has_embedded_line_break s ≡ false) ↔ (Lacks cr s × Lacks lf s)
unfolding has_embedded_line_break
has_embedded_line_break_iff s = (
  λ h. (contains-Lacks cr s (ground arith), contains-Lacks lf s (ground arith)),
  λ h. ground (arith, Lacks-contains cr s h.0, Lacks-contains lf s h.1),
)
