-- ===== src/Protocol/Command/Parse.antt =====
-- How a line is read as a command: `FtpCommand::parse` against the verbs it supports.
use iot_ftp_upload_gateway.Base.{
  ◌≡◌, ◌≢◌, ◌↔◌, refl, sym, ap, append-nil, ◌∙◌, trim-NoneOf, Bool, true, false, List, [], ◌∷◌,
  ◌++◌, arith, Text, codes, any, NoneOf, Lacks, trim, is_whitespace, map, to_ascii_uppercase,
  text_eq, split_once-append, split_once-none, trim_end_with, trim_start_with, trim_end-append,
  trim-trim_end, NoneOf-Lacks, before_end,
}
use iot_ftp_upload_gateway.Protocol.Command.{unknown, of_verb, verb_and_rest, parse}

-- The commands of the gateway.
abbrev pub supported_verbs : List Text
supported_verbs =
    codes "USER"
    ∷ codes "PASS"
    ∷ codes "SYST"
    ∷ codes "TYPE"
    ∷ codes "PWD"
    ∷ codes "CWD"
    ∷ codes "PASV"
    ∷ codes "EPSV"
    ∷ codes "STOR"
    ∷ codes "MKD"
    ∷ codes "QUIT"
    ∷ codes "NOOP"
    ∷ []

abbrev pub is_supported : Text → Bool
is_supported verb = any (text_eq verb) supported_verbs

-- A verb as a client sends it: some characters, no white space.
abbrev pub IsWord : Text → Type 0
IsWord s = (s ≢ []) × NoneOf is_whitespace s

abbrev blank_ws : is_whitespace 0x20 ≡ true
blank_ws = refl

trim_start-word : (s t : Text) → IsWord s → trim_start_with is_whitespace (s ++ t) ≡ s ++ t
trim_start-word [] t h = absurd (h.0 refl)
trim_start-word (c ∷ s) t h = rw (h.1.0)

verb_and_rest_alone : (verb : Text) → Lacks 0x20 verb → verb_and_rest verb ≡ (verb, [])
unfolding verb_and_rest
verb_and_rest_alone verb h = rw (split_once-none 0x20 verb h, verb_and_rest)

verb_and_rest-word :
    (verb arg : Text) → IsWord verb → verb_and_rest (trim (verb ++ 0x20 ∷ arg)) ≡ (verb, trim arg)
unfolding verb_and_rest
verb_and_rest-word verb arg h =
    rw
      (trim_start-word verb (0x20 ∷ arg) h, trim_end-append is_whitespace verb (0x20 ∷ arg) h.0 h.1)
      (cut_at (trim_end_with is_whitespace arg) refl)
  where
    lacks : Lacks 0x20 verb
    lacks = NoneOf-Lacks is_whitespace 0x20 verb refl h.1

    cut_at :
        (r : Text)
        → trim_end_with is_whitespace arg ≡ r
        → verb_and_rest (verb ++ before_end is_whitespace 0x20 r) ≡ (verb, trim arg)
    cut_at [] e =
        ap verb_and_rest (append-nil verb)
        ∙ verb_and_rest_alone verb lacks
        ∙ ap (λ (t : Text). (verb, t)) (sym (sym (trim-trim_end arg) ∙ ap trim e))
    cut_at (d ∷ r) e =
        rw (split_once-append 0x20 verb (d ∷ r) lacks, verb_and_rest)
          (ap (λ (t : Text). (verb, t)) (sym (sym (trim-trim_end arg) ∙ ap trim e)))

-- A line of a verb, a blank and an argument is the command of the verb in upper case, with the
-- argument trimmed.
pub parse-append :
    (verb arg : Text)
    → IsWord verb
    → parse (verb ++ 0x20 ∷ arg) ≡ of_verb (map to_ascii_uppercase verb) (trim arg)
unfolding parse
parse-append verb arg h = rw (verb_and_rest-word verb arg h)

-- A line of a verb alone is its command with an empty argument.
pub parse_word : (verb : Text) → IsWord verb → parse verb ≡ of_verb (map to_ascii_uppercase verb) []
unfolding parse
parse_word verb h =
    rw (
      trim-NoneOf verb h.1,
      verb_and_rest_alone verb (NoneOf-Lacks is_whitespace 0x20 verb refl h.1),
    )

-- A verb is rejected as unknown exactly when it is none of the supported ones.
pub of_verb-unknown_iff :
    (verb rest : Text) → (of_verb verb rest ≡ unknown verb) ↔ (is_supported verb ≡ false)
unfolding of_verb
of_verb-unknown_iff verb rest = (λ e. ground arith, λ e. ground arith)
