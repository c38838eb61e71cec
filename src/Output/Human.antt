-- ===== src/Output/Human.antt =====
-- internal/output/human.go: the text for a reader. `summarize` is the method `Summary` of the details,
-- `none` where their type has none. A writer is the text that is written; writing does not fail.
pub mod Colorless
use mailsec_probe.Common.{
  length, if◌then◌else◌, ℕ, zero, suc, ◌-◌, Bool, true, false, not, Option, none, some, List, [],
  ◌∷◌, ◌++◌,
}
use mailsec_probe.Output.{show_confidence}
use mailsec_probe.Output.Color.{Colorizer, color_by_status, dim}
use mailsec_probe.Signals.{Status, present, status_text, status_eq, Feature, Report}
use mailsec_probe.Text.{Bytes, codes, to_upper, decimal}

abbrev pub spaces : ℕ → Bytes
spaces zero = []
spaces (suc n) = b' ' ∷ spaces n

-- A text with spaces behind it up to a width, as `strings.Repeat` and the verb `%-10s` give it on
-- ASCII texts.
unfoldable pub pad_right : ℕ → Bytes → Bytes
pad_right width s = s ++ spaces (width - length s)

abbrev first_or_empty : List Bytes → Bytes
first_or_empty [] = []
first_or_empty (r ∷ reasons) = r

abbrev with_line : Status → List Bytes → Bytes → Bytes
with_line status [] line = line
with_line status (r ∷ reasons) line =
    if not (status_eq status present) then r ++ (codes "  |  " ++ line) else line

-- An empty summary counts as none.
abbrev detail_of : Status → List Bytes → Option Bytes → Bytes
detail_of status reasons none = first_or_empty reasons
detail_of status reasons (some []) = first_or_empty reasons
detail_of status reasons (some (c ∷ line)) = with_line status reasons (c ∷ line)

abbrev summary_of : {D : Type 0} → (D → Option Bytes) → Option D → Option Bytes
summary_of summarize none = none
summary_of summarize (some d) = summarize d

unfoldable pub primary_detail : {D : Type 0} → (D → Option Bytes) → Feature D → Bytes
unfolding status_eq
primary_detail summarize f = detail_of f.status f.reasons (summary_of summarize f.details)

-- `len("MISCONFIGURED")` is 13.
unfoldable pub coloured_status_cell : Colorizer → Status → Bytes
unfolding color_by_status to_upper status_text
coloured_status_cell c s =
    let upper = to_upper (status_text s) in color_by_status c s upper ++ spaces (13 - length upper)

-- The box-drawing characters in UTF-8.
abbrev branch : Bool → Bytes
branch last = 226 ∷ 148 ∷ (if last then 148 else 156) ∷ 226 ∷ 148 ∷ 128 ∷ []

abbrev is_last {ℓ} : {A : Type ℓ} → List A → Bool
is_last [] = true
is_last (x ∷ xs) = false

abbrev feature_line : {D : Type 0} → Colorizer → (D → Option Bytes) → Bool → Feature D → Bytes
feature_line c summarize last f =
    branch last
    ++ (b' ' ∷ pad_right 10 (to_upper f.name)
        ++ (b' ' ∷ coloured_status_cell c f.status
            ++ (codes "   "
                ++ (dim c (codes "conf=" ++ show_confidence f.confidence)
                    ++ (codes "   " ++ (primary_detail summarize f ++ b'\n' ∷ []))))))

unfoldable pub feature_lines :
    {D : Type 0} → Colorizer → (D → Option Bytes) → List (Feature D) → Bytes
unfolding pad_right to_upper coloured_status_cell dim primary_detail decimal
feature_lines c summarize [] = []
feature_lines c summarize (f ∷ fs) =
    feature_line c summarize (is_last fs) f ++ feature_lines c summarize fs

unfoldable pub error_lines : List Bytes → Bytes
error_lines [] = []
error_lines (e ∷ es) = codes "! " ++ (e ++ b'\n' ∷ error_lines es)

abbrev report_text : {D : Type 0} → Colorizer → (D → Option Bytes) → Report D → Bytes
report_text c summarize r =
    r.domain ++ b'\n' ∷ (feature_lines c summarize r.features ++ error_lines r.errors)

-- The reports behind the first, with an empty line before each.
unfoldable pub more_reports :
    {D : Type 0} → Colorizer → (D → Option Bytes) → List (Report D) → Bytes
unfolding feature_lines error_lines
more_reports c summarize [] = []
more_reports c summarize (r ∷ reports) =
    b'\n' ∷ (report_text c summarize r ++ more_reports c summarize reports)

unfoldable pub write_human_colored :
    {D : Type 0} → Colorizer → (D → Option Bytes) → List (Report D) → Bytes
unfolding more_reports feature_lines error_lines
write_human_colored c summarize [] = []
write_human_colored c summarize (r ∷ reports) =
    report_text c summarize r ++ more_reports c summarize reports

-- `WriteHuman`: the zero `Colorizer`.
unfoldable pub write_human : {D : Type 0} → (D → Option Bytes) → List (Report D) → Bytes
unfolding write_human_colored
write_human summarize reports = write_human_colored (record { enabled = false }) summarize reports
