-- ===== src/Output/Human/Colorless.antt =====
-- `WriteHumanColored` of internal/output/human.go: colour does not change what is shown.
use mailsec_probe.Common.{
  length, All, ℕ, zero, suc, ◌-◌, ◌/◌, ◌≡◌, refl, sym, ap, ◌∙◌, Bool, true, false, Option, List, [],
  ◌∷◌, ◌++◌, append-nil, arith,
}
use mailsec_probe.Output.{show_confidence, two_digits}
use mailsec_probe.Output.Color.{Colorizer}
use mailsec_probe.Output.Color.Shown.{
  Plain, colourless, IsShown, Plain-IsShown, append-IsShown, dim-IsShown, color-IsShown,
  is_plain-Plain, literal,
}
use mailsec_probe.Output.Color.Strip.{strip_in, strip_ansi}
use mailsec_probe.Output.Human.{
  spaces, pad_right, primary_detail, coloured_status_cell, feature_lines, error_lines, more_reports,
  write_human_colored, write_human, branch, is_last, feature_line, report_text,
}
use mailsec_probe.Signals.{
  Status, present, absent, unknown, misconfigured, skipped, status_text, Feature, Report,
}
use mailsec_probe.Text.{Bytes, codes, upper_byte, to_upper, decimal}
use mailsec_probe.Text.Cut.{decimal-Lacks, Lacks-append}

pub record IsPlainFeature (D : Type 0) (summarize : D → Option Bytes) (f : Feature D) : Type 0 where
  pub plain_name : Plain f.name
  pub plain_detail : Plain (primary_detail summarize f)

pub record IsPlainReport (D : Type 0) (summarize : D → Option Bytes) (r : Report D) : Type 0 where
  pub plain_domain : Plain r.domain
  pub plain_features : All (IsPlainFeature D summarize) r.features
  pub plain_errors : All Plain r.errors

to_upper-Plain : (s : Bytes) → Plain s → Plain (to_upper s)
unfolding to_upper upper_byte
to_upper-Plain [] h = tt
to_upper-Plain (c ∷ s) (hc, h) = (ground arith, to_upper-Plain s h)

spaces-Plain : (n : ℕ) → Plain (spaces n)
spaces-Plain zero = tt
spaces-Plain (suc n) = (omega arith, spaces-Plain n)

pad_right-Plain : (n : ℕ) (s : Bytes) → Plain s → Plain (pad_right n s)
unfolding pad_right
pad_right-Plain n s h = Lacks-append 27 s (spaces (n - length s)) h (spaces-Plain (n - length s))

status_text-Plain : (s : Status) → Plain (status_text s)
unfolding status_text
status_text-Plain present = is_plain-Plain (codes "present") refl
status_text-Plain absent = is_plain-Plain (codes "absent") refl
status_text-Plain unknown = is_plain-Plain (codes "unknown") refl
status_text-Plain misconfigured = is_plain-Plain (codes "misconfigured") refl
status_text-Plain skipped = is_plain-Plain (codes "skipped") refl

show_confidence-Plain : (n : ℕ) → Plain (show_confidence n)
show_confidence-Plain n =
    Lacks-append 27 (decimal (n / 100)) (b'.' ∷ two_digits n)
      (decimal-Lacks 27 (n / 100) (omega arith)) (omega arith, (omega arith, (omega arith, tt)))

branch-Plain : (last : Bool) → Plain (branch last)
branch-Plain true = is_plain-Plain (branch true) refl
branch-Plain false = is_plain-Plain (branch false) refl

cell-IsShown :
    (c : Colorizer) (status : Status)
    → IsShown (coloured_status_cell c status) (coloured_status_cell colourless status)
unfolding coloured_status_cell
cell-IsShown c status =
    let upper = to_upper (status_text status) in
    append-IsShown
      (color-IsShown c status upper
        (to_upper-Plain (status_text status) (status_text-Plain status)))
      (Plain-IsShown (spaces (13 - length upper)) (spaces-Plain (13 - length upper)))

module _ (D : Type 0) (summarize : D → Option Bytes) (c : Colorizer) where
  feature_line-IsShown :
      (last : Bool) (f : Feature D)
      → IsPlainFeature D summarize f
      → IsShown (feature_line c summarize last f) (feature_line colourless summarize last f)
  feature_line-IsShown last f plain =
      let name = to_upper f.name in
      let conf = codes "conf=" ++ show_confidence f.confidence in
      append-IsShown (Plain-IsShown (branch last) (branch-Plain last)) (
        append-IsShown
          (Plain-IsShown (b' ' ∷ pad_right 10 name)
            (omega arith, pad_right-Plain 10 name (to_upper-Plain f.name plain.plain_name)))
          (append-IsShown (append-IsShown (literal (b' ' ∷ []) refl) (cell-IsShown c f.status)) (
            append-IsShown (literal (codes "   ") refl) (
              append-IsShown
                (dim-IsShown c conf (
                  Lacks-append 27 (codes "conf=") (show_confidence f.confidence)
                    (is_plain-Plain (codes "conf=") refl) (show_confidence-Plain f.confidence)))
                (append-IsShown (literal (codes "   ") refl) (
                  append-IsShown (Plain-IsShown (primary_detail summarize f) plain.plain_detail)
                    (literal (b'\n' ∷ []) refl)))))))

  feature_lines-IsShown :
      (fs : List (Feature D))
      → All (IsPlainFeature D summarize) fs
      → IsShown (feature_lines c summarize fs) (feature_lines colourless summarize fs)
  unfolding feature_lines
  feature_lines-IsShown [] h = literal [] refl
  feature_lines-IsShown (f ∷ fs) (plain, h) =
      append-IsShown (feature_line-IsShown (is_last fs) f plain) (feature_lines-IsShown fs h)

  error_lines-Plain : (es : List Bytes) → All Plain es → Plain (error_lines es)
  unfolding error_lines
  error_lines-Plain [] h = tt
  error_lines-Plain (e ∷ es) (plain, h) = (
    omega arith,
    (
      omega arith,
      Lacks-append 27 e (b'\n' ∷ error_lines es) plain (omega arith, error_lines-Plain es h),
    ),
  )

  report_text-IsShown :
      (r : Report D)
      → IsPlainReport D summarize r
      → IsShown (report_text c summarize r) (report_text colourless summarize r)
  report_text-IsShown r plain = append-IsShown (Plain-IsShown r.domain plain.plain_domain) (
      append-IsShown (literal (b'\n' ∷ []) refl) (
        append-IsShown (feature_lines-IsShown r.features plain.plain_features)
          (Plain-IsShown (error_lines r.errors) (error_lines-Plain r.errors plain.plain_errors))))

  more_reports-IsShown :
      (reports : List (Report D))
      → All (IsPlainReport D summarize) reports
      → IsShown (more_reports c summarize reports) (more_reports colourless summarize reports)
  unfolding more_reports
  more_reports-IsShown [] h = literal [] refl
  more_reports-IsShown (r ∷ reports) (plain, h) =
      append-IsShown (literal (b'\n' ∷ []) refl)
        (append-IsShown (report_text-IsShown r plain) (more_reports-IsShown reports h))

  write-IsShown :
      (reports : List (Report D))
      → All (IsPlainReport D summarize) reports
      → IsShown (write_human_colored c summarize reports) (write_human summarize reports)
  unfolding write_human write_human_colored
  write-IsShown [] h = literal [] refl
  write-IsShown (r ∷ reports) (plain, h) =
      append-IsShown (report_text-IsShown r plain) (more_reports-IsShown reports h)

  -- Whatever the colour mode, the text for a reader is, without its escapes, the text that
  -- `WriteHuman` writes, when the domains, the feature names, the detail lines and the errors hold no
  -- ESC.
  pub write_human_colored-strip :
      (reports : List (Report D))
      → All (IsPlainReport D summarize) reports
      → strip_ansi (write_human_colored c summarize reports) ≡ write_human summarize reports
  unfolding strip_ansi strip_in
  write_human_colored-strip reports h =
      ap strip_ansi (sym (append-nil (write_human_colored c summarize reports)))
      ∙ (write-IsShown reports h).stripped []
      ∙ append-nil (write_human summarize reports)
