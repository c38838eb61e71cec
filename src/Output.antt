-- ===== src/Output.antt =====
-- internal/output/tsv.go: the tab-separated rows. A writer is the text that is written; writing does
-- not fail.
pub mod Rows
pub mod Color
pub mod Human
use mailsec_probe.Common.{◌==◌, if◌then◌else◌, ℕ, ◌+◌, ◌/◌, ◌%◌, ◌||◌, List, [], ◌∷◌, ◌++◌, map}
use mailsec_probe.Signals.{status_text, Feature, Report}
use mailsec_probe.Text.{Bytes, codes, join, decimal}

-- `sanitiseTSV`.
abbrev sanitise_byte : ℕ → ℕ
sanitise_byte c = if c == b'\t' || c == b'\n' || c == b'\r' then b' ' else c

unfoldable pub sanitise_tsv : Bytes → Bytes
sanitise_tsv s = map sanitise_byte s

-- The verb `%.2f` on a confidence in hundredths.
abbrev two_digits : ℕ → Bytes
two_digits n = (b'0' + n / 10 % 10) ∷ (b'0' + n % 10) ∷ []

abbrev pub show_confidence : ℕ → Bytes
show_confidence n = decimal (n / 100) ++ b'.' ∷ two_digits n

abbrev first_reason : List Bytes → Bytes
first_reason [] = []
first_reason (r ∷ reasons) = sanitise_tsv r

-- The columns of one row.
abbrev pub feature_cells : {D : Type 0} → Bytes → Feature D → List Bytes
feature_cells domain f =
    domain
    ∷ f.name
    ∷ status_text f.status
    ∷ show_confidence f.confidence
    ∷ first_reason f.reasons
    ∷ []

abbrev pub error_cells : Bytes → Bytes → List Bytes
error_cells domain e = domain ∷ codes "!error" ∷ codes "-" ∷ codes "-" ∷ sanitise_tsv e ∷ []

abbrev pub header_cells : List Bytes
header_cells =
    codes "domain" ∷ codes "feature" ∷ codes "status" ∷ codes "confidence" ∷ codes "reason" ∷ []

abbrev pub report_cells : {D : Type 0} → Report D → List (List Bytes)
report_cells r = map (feature_cells r.domain) r.features ++ map (error_cells r.domain) r.errors

pub all_cells : {D : Type 0} → List (Report D) → List (List Bytes)
all_cells [] = []
all_cells (r ∷ reports) = report_cells r ++ all_cells reports

-- A row: its cells with tabs between them, and a newline.
abbrev pub row : List Bytes → Bytes
row cells = join cells (b'\t' ∷ []) ++ b'\n' ∷ []

pub rows : List (List Bytes) → Bytes
unfolding join
rows [] = []
rows (cells ∷ more) = row cells ++ rows more

unfoldable pub write_tsv : {D : Type 0} → List (Report D) → Bytes
unfolding rows all_cells sanitise_tsv decimal status_text
write_tsv reports = rows (header_cells ∷ all_cells reports)
