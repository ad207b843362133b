-- ===== src/Metrics/Reading.antt =====
-- Rules for lines that read as samples.
use iot_ftp_upload_gateway.Base.{
  show-Lacks, ℕ, ◌≤◌, ◌≡◌, refl, sym, ap, ◌∙◌, true, List, [], ◌∷◌, ◌++◌, some, arith, append_assoc,
  All, All-append, Text, lf, Lacks, show, u64_max,
}
use iot_ftp_upload_gateway.Metrics.Scrape.{
  read_lines, is_plain, with_first, read_lines-comment, read_lines-sample,
}

-- Lines that stay apart, and that read as the given samples before any others.
pub record Reads (lines : List Text) (samples : List (Text × ℕ)) : Type 0 where
  pub apart : All (Lacks lf) lines
  pub read :
      (rest : List Text) (others : List (Text × ℕ))
      → read_lines rest ≡ some others
      → read_lines (lines ++ rest) ≡ some (samples ++ others)

pub Reads-nil : Reads [] []
Reads-nil = record { apart = tt; read = λ rest others h. h }

pub Reads-append :
    (ls ms : List Text) (ss ts : List (Text × ℕ))
    → Reads ls ss
    → Reads ms ts
    → Reads (ls ++ ms) (ss ++ ts)
Reads-append ls ms ss ts r q = record {
  apart = All-append (Lacks lf) ls ms r.apart q.apart;
  read = λ rest others h.
      ap read_lines (append_assoc ls ms rest)
      ∙ r.read (ms ++ rest) (ts ++ others) (q.read rest others h)
      ∙ ap some (sym (append_assoc ss ts others));
}

pub Reads-comment :
    (text : Text) (ls : List Text) (ss : List (Text × ℕ))
    → Lacks lf text
    → Reads ls ss
    → Reads ((b'#' ∷ text) ∷ ls) ss
Reads-comment text ls ss h r = record {
  apart = ((λ e. omega arith, h), r.apart);
  read = λ rest others k. read_lines-comment (b'#' ∷ text) (ls ++ rest) refl ∙ r.read rest others k;
}

pub Reads-sample :
    (id : Text) (value : ℕ) (ls : List Text) (ss : List (Text × ℕ))
    → is_plain id ≡ true
    → Lacks lf id
    → value ≤ u64_max
    → Reads ls ss
    → Reads ((id ++ b' ' ∷ show value) ∷ ls) ((id, value) ∷ ss)
Reads-sample id value ls ss plain h k r = record {
  apart = (
    All-append _ id (b' ' ∷ show value) h
        (λ e. omega arith, show-Lacks lf value (λ i. omega arith)),
    r.apart,
  );
  read = λ rest others e.
      read_lines-sample id value (ls ++ rest) plain k
      ∙ ap (with_first (id, value)) (r.read rest others e);
}
