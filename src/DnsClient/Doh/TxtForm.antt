-- ===== src/DnsClient/Doh/TxtForm.antt =====
-- `decodeTXTPresentation` of internal/probe/dnsclient/doh.go: reading a TXT record back.
use mailsec_probe.DnsClient.Doh.{decode_txt_presentation, scan_txt, between_strings, in_quote, push}
use mailsec_probe.Common.{
  ◌==◌, Bool-cases, ◌≡◌, refl, false, some, List, [], ◌∷◌, ◌++◌, arith, if◌then◌else◌, ℕ, inl, inr,
  ◌||◌, Option, none, All, ap, ◌∙◌,
}
use mailsec_probe.Text.{Bytes}

-- A backslash stands before every quote and every backslash.
pub escape_txt : Bytes → Bytes
escape_txt [] = []
escape_txt (c ∷ s) = if c == b'"' || c == b'\\' then b'\\' ∷ c ∷ escape_txt s else c ∷ escape_txt s

-- The character-strings, each in quotes, with a space before each.
pub present_txt : List Bytes → Bytes
present_txt [] = []
present_txt (s ∷ strs) = b' ' ∷ b'"' ∷ (escape_txt s ++ b'"' ∷ present_txt strs)

unfoldable pub concat_strings : List Bytes → Bytes
concat_strings [] = []
concat_strings (s ∷ strs) = s ++ concat_strings strs

abbrev prepend : Bytes → Option Bytes → Option Bytes
prepend s none = none
prepend s (some out) = some (s ++ out)

push-prepend : (c : ℕ) (s : Bytes) (o : Option Bytes) → push c (prepend s o) ≡ prepend (c ∷ s) o
push-prepend c s none = refl
push-prepend c s (some out) = refl

prepend-nil : (o : Option Bytes) → o ≡ prepend [] o
prepend-nil none = refl
prepend-nil (some out) = refl

scan_txt-escape_txt :
    (s rest : Bytes)
    → scan_txt in_quote (escape_txt s ++ b'"' ∷ rest) ≡ prepend s (scan_txt between_strings rest)
unfolding scan_txt escape_txt
scan_txt-escape_txt [] rest = prepend-nil (scan_txt between_strings rest)
scan_txt-escape_txt (c ∷ s) rest = elim (Bool-cases (c == b'"' || c == b'\\')) [
  | inl special ↦
      rw (special, scan_txt-escape_txt s rest) (push-prepend c s (scan_txt between_strings rest))
  | inr other ↦
      let other_quote : (c == b'"') ≡ false = ground arith in
      let other_slash : (c == b'\\') ≡ false = ground arith in
      rw (other, other_quote, other_slash, scan_txt-escape_txt s rest)
        (push-prepend c s (scan_txt between_strings rest))
]

scan_txt-present_txt :
    (strs : List Bytes) → scan_txt between_strings (present_txt strs) ≡ some (concat_strings strs)
unfolding scan_txt present_txt concat_strings
scan_txt-present_txt [] = refl
scan_txt-present_txt (s ∷ strs) = rw (scan_txt-escape_txt s, scan_txt-present_txt strs)

-- `decodeTXTPresentation` gives the character-strings of a record, put together, back from their
-- quoted forms, whatever bytes they hold.
pub decode_txt_presentation-present_txt :
    (strs : List Bytes) → decode_txt_presentation (present_txt strs) ≡ some (concat_strings strs)
unfolding decode_txt_presentation
decode_txt_presentation-present_txt strs = scan_txt-present_txt strs

-- Character-strings in quotes as they stand, with a space between them.
abbrev spaced : List Bytes → Bytes
spaced [] = []
spaced (s ∷ strs) = b' ' ∷ b'"' ∷ (s ++ b'"' ∷ spaced strs)

pub quoted : List Bytes → Bytes
quoted [] = []
quoted (s ∷ strs) = b'"' ∷ (s ++ b'"' ∷ spaced strs)

-- No quote and no backslash.
abbrev pub IsUnescaped : Bytes → Type 0
IsUnescaped s = All (λ c. ((c == b'"') ≡ false) × ((c == b'\\') ≡ false)) s

escape_txt-IsUnescaped : (s : Bytes) → IsUnescaped s → escape_txt s ≡ s
unfolding escape_txt
escape_txt-IsUnescaped [] h = refl
escape_txt-IsUnescaped (c ∷ s) ((q, b), h) = rw (q, b, escape_txt-IsUnescaped s h)

spaced-present_txt : (strs : List Bytes) → All IsUnescaped strs → spaced strs ≡ present_txt strs
unfolding present_txt
spaced-present_txt [] h = refl
spaced-present_txt (s ∷ strs) h = rw (escape_txt-IsUnescaped s h.0, spaced-present_txt strs h.1)

-- It gives them back from the plain quotes, where no string needs an escape.
pub decode_txt_presentation-quoted :
    (strs : List Bytes)
    → All IsUnescaped strs
    → decode_txt_presentation (quoted strs) ≡ some (concat_strings strs)
unfolding decode_txt_presentation scan_txt quoted present_txt
decode_txt_presentation-quoted [] h = scan_txt-present_txt []
decode_txt_presentation-quoted (s ∷ strs) h =
    ap (scan_txt between_strings) (spaced-present_txt (s ∷ strs) h)
    ∙ scan_txt-present_txt (s ∷ strs)
