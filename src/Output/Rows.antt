-- ===== src/Output/Rows.antt =====
-- `WriteTSV` of internal/output/tsv.go: reading its rows back.
use mailsec_probe.Output.{
  sanitise_tsv, show_confidence, feature_cells, error_cells, report_cells, all_cells, rows,
  first_reason, header_cells, write_tsv,
}
use mailsec_probe.Text.{Bytes, split, join, decimal}
use mailsec_probe.Text.Cut.{
  Lacks, split-append, split-join, decimal-Lacks, Lacks-append, join-Lacks,
}
use mailsec_probe.Common.{
  [], ◌∷◌, arith, All, All-append, ℕ, ◌/◌, ◌<◌, ◌≡◌, refl, ap, ◌≢◌, List, ◌++◌, map, append_assoc,
}
use mailsec_probe.Signals.{
  Status, present, absent, unknown, misconfigured, skipped, status_text, Feature, Report,
}
use mathlib.Core.List.{cons-ne-nil}

-- A text that stands in one cell.
abbrev pub IsCell : Bytes → Type 0
IsCell s = Lacks b'\t' s × Lacks b'\n' s

sanitise_tsv-IsCell : (s : Bytes) → IsCell (sanitise_tsv s)
unfolding sanitise_tsv
sanitise_tsv-IsCell [] = (tt, tt)
sanitise_tsv-IsCell (c ∷ s) =
    let (a, b) = sanitise_tsv-IsCell s in ((ground arith, a), (ground arith, b))

-- The cells of one row.
abbrev AreCells : List Bytes → Type 0
AreCells cells = (cells ≢ []) × All (Lacks b'\t') cells × All (Lacks b'\n') cells

status_text-IsCell : (s : Status) → IsCell (status_text s)
unfolding status_text
status_text-IsCell present = (ground arith, ground arith)
status_text-IsCell absent = (ground arith, ground arith)
status_text-IsCell unknown = (ground arith, ground arith)
status_text-IsCell misconfigured = (ground arith, ground arith)
status_text-IsCell skipped = (ground arith, ground arith)

show_confidence-Lacks : (b n : ℕ) → b < b'.' → Lacks b (show_confidence n)
show_confidence-Lacks b n small =
    Lacks-append b (decimal (n / 100)) _ (decimal-Lacks b (n / 100) (omega (arith, small))) (
      (λ e. absurd (omega (arith, e, small))),
      ((λ e. absurd (omega (arith, e, small))), ((λ e. absurd (omega (arith, e, small))), tt)),
    )

first_reason-IsCell : (reasons : List Bytes) → IsCell (first_reason reasons)
first_reason-IsCell [] = (tt, tt)
first_reason-IsCell (r ∷ reasons) = sanitise_tsv-IsCell r

feature_cells-AreCells :
    {D : Type 0} (domain : Bytes) (f : Feature D)
    → IsCell domain
    → IsCell f.name
    → AreCells (feature_cells domain f)
feature_cells-AreCells domain f d n =
    let s = status_text-IsCell f.status in
    let r = first_reason-IsCell f.reasons in
    let c = show_confidence-Lacks b'\t' f.confidence (omega arith) in
    let c' = show_confidence-Lacks b'\n' f.confidence (omega arith) in
    (cons-ne-nil _ _, (d.0, (n.0, (s.0, (c, (r.0, tt))))), (d.1, (n.1, (s.1, (c', (r.1, tt))))))

error_cells-AreCells : (domain e : Bytes) → IsCell domain → AreCells (error_cells domain e)
error_cells-AreCells domain e d =
    let s = sanitise_tsv-IsCell e in
    (
      cons-ne-nil _ _,
      (d.0, (ground arith, (ground arith, (ground arith, (s.0, tt))))),
      (d.1, (ground arith, (ground arith, (ground arith, (s.1, tt))))),
    )

-- The domains and the names of the features are texts of one cell.
pub record IsPlain (D : Type 0) (r : Report D) : Type 0 where
  pub domain_cell : IsCell r.domain
  pub name_cells : All (λ (f : Feature D). IsCell f.name) r.features

feature_rows :
    {D : Type 0} (domain : Bytes) (fs : List (Feature D))
    → IsCell domain
    → All (λ (f : Feature D). IsCell f.name) fs
    → All AreCells (map (feature_cells domain) fs)
feature_rows domain [] d h = tt
feature_rows domain (f ∷ fs) d h =
    (feature_cells-AreCells domain f d h.0, feature_rows domain fs d h.1)

error_rows :
    (domain : Bytes) (es : List Bytes) → IsCell domain → All AreCells (map (error_cells domain) es)
error_rows domain [] d = tt
error_rows domain (e ∷ es) d = (error_cells-AreCells domain e d, error_rows domain es d)

all_cells-AreCells :
    {D : Type 0} (reports : List (Report D))
    → All (IsPlain D) reports
    → All AreCells (all_cells reports)
unfolding all_cells
all_cells-AreCells [] h = tt
all_cells-AreCells (r ∷ reports) (p, h) =
    All-append AreCells (report_cells r) (all_cells reports)
      (All-append AreCells _ _ (feature_rows r.domain r.features p.domain_cell p.name_cells)
        (error_rows r.domain r.errors p.domain_cell))
      (all_cells-AreCells reports h)

-- A reader of the format: lines at the newlines, cells at the tabs.
abbrev pub read_rows : Bytes → List (List Bytes)
read_rows text = map (λ line. split line b'\t') (split text b'\n')

rows-read :
    (table : List (List Bytes))
    → All AreCells table
    → read_rows (rows table) ≡ table ++ ([] ∷ []) ∷ []
unfolding rows
rows-read [] h = unfold split in refl
rows-read (cells ∷ table) ((ne, tabs, lines), h) =
    let text = join cells (b'\t' ∷ []) in
    let line =
      split-append text (rows table) b'\n' (join-Lacks b'\n' b'\t' cells (ground arith) lines) in
    rw (append_assoc text (b'\n' ∷ []) (rows table))
      (rw (line, split-join cells b'\t' ne tabs) (ap (◌∷◌ cells) (rows-read table h)))

header-AreCells : AreCells header_cells
header-AreCells = (cons-ne-nil _ _, ground arith, ground arith)

-- If no domain and no feature name holds a tab or a newline, a reader that splits the output of
-- `WriteTSV` at the newlines and each line at the tabs gets back the header, then the five cells of
-- every feature and of every error in their order, and an empty text behind the last newline:
-- whatever tabs and newlines the reasons and errors hold.
pub write_tsv-read_rows :
    {D : Type 0} (reports : List (Report D))
    → All (IsPlain D) reports
    → read_rows (write_tsv reports) ≡ (header_cells ∷ all_cells reports) ++ ([] ∷ []) ∷ []
unfolding write_tsv
write_tsv-read_rows reports h =
    rows-read (header_cells ∷ all_cells reports) (header-AreCells, all_cells-AreCells reports h)
