-- ===== src/Stats/Writers.antt =====
-- The writers of internal/output/stats.go. A writer is the text that is written; writing does not
-- fail.
use mailsec_probe.Common.{
  length, ◌==◌, if◌then◌else◌, ℕ, ◌-◌, ◌*◌, ◌/◌, false, List, [], ◌∷◌, ◌++◌, map,
}
use mailsec_probe.Output.{rows}
use mailsec_probe.Output.Color.{Colorizer, color_by_status}
use mailsec_probe.Output.Human.{spaces, pad_right}
use mailsec_probe.Signals.{Status, present, absent, unknown, misconfigured, Report}
use mailsec_probe.Stats.{FeatureStat, Stats, compute}
use mailsec_probe.Text.{Bytes, codes, decimal}

abbrev plural : ℕ → Bytes
plural n = if n == 1 then [] else codes "s"

-- A share in per cent, rounded down. Go computes it in floating point, which gives the same up to 2^44
-- domains.
abbrev percent : ℕ → ℕ → ℕ
percent n total = n * 100 / total

-- `PercentPresent`.
unfoldable pub percent_present : FeatureStat → ℕ
percent_present s = if s.total == 0 then 0 else percent s.n_present s.total

unfoldable pub count_cell : ℕ → ℕ → Bytes
unfolding decimal
count_cell n total =
    if n == 0
    then codes "0"
    else decimal n ++ (codes " (" ++ (decimal (percent n total) ++ codes "%)"))

-- Padded by the width of the text that is seen; a zero keeps its colour.
unfoldable pub stats_cell : Colorizer → Status → ℕ → ℕ → ℕ → Bytes
unfolding count_cell color_by_status
stats_cell c s n total width =
    let visible = count_cell n total in
    let padding = spaces (width - length visible) in
    if n == 0 then visible ++ padding else color_by_status c s visible ++ padding

abbrev col_width : ℕ
col_width = 15

-- The columns behind the first, with a space before each.
abbrev stats_cells : Colorizer → FeatureStat → Bytes
stats_cells c f =
    b' ' ∷ stats_cell c present f.n_present f.total col_width
    ++ (b' ' ∷ stats_cell c absent f.n_absent f.total col_width
        ++ (b' ' ∷ stats_cell c misconfigured f.n_misconfigured f.total col_width
            ++ (b' ' ∷ stats_cell c unknown f.n_unknown f.total col_width ++ b'\n' ∷ [])))

unfoldable pub stats_lines : Colorizer → List FeatureStat → Bytes
unfolding pad_right stats_cell
stats_lines c [] = []
stats_lines c (f ∷ fs) = (pad_right 10 f.feature_name ++ stats_cells c f) ++ stats_lines c fs

abbrev stats_title : ℕ → Bytes
stats_title n =
    b'\n' ∷ codes "=== Summary ("
    ++ (decimal n ++ (codes " domain" ++ (plural n ++ (codes ") ===" ++ b'\n' ∷ []))))

abbrev stats_header : Bytes
stats_header =
    pad_right 10 (codes "feature")
    ++ (b' ' ∷ pad_right 15 (codes "present")
        ++ (b' ' ∷ pad_right 15 (codes "absent")
            ++ (b' ' ∷ pad_right 15 (codes "misconfig")
                ++ (b' ' ∷ pad_right 15 (codes "unknown") ++ b'\n' ∷ []))))

abbrev stats_text : Colorizer → Stats → Bytes
stats_text c s = stats_title s.num_domains ++ (stats_header ++ stats_lines c s.feature_stats)

-- `WriteStatsHumanColored` and `WriteStatsHuman`.
unfoldable pub write_stats_human_colored : {D : Type 0} → Colorizer → List (Report D) → Bytes
unfolding compute stats_lines pad_right decimal
write_stats_human_colored c reports = stats_text c (compute reports)

unfoldable pub write_stats_human : {D : Type 0} → List (Report D) → Bytes
unfolding write_stats_human_colored
write_stats_human reports = write_stats_human_colored (record { enabled = false }) reports

-- `WriteStatsTSV`.
abbrev pub stats_row : FeatureStat → List Bytes
stats_row f =
    f.feature_name
    ∷ decimal f.total
    ∷ decimal f.n_present
    ∷ decimal f.n_absent
    ∷ decimal f.n_misconfigured
    ∷ decimal f.n_unknown
    ∷ []

abbrev pub stats_columns : List Bytes
stats_columns =
    codes "feature"
    ∷ codes "total"
    ∷ codes "present"
    ∷ codes "absent"
    ∷ codes "misconfigured"
    ∷ codes "unknown"
    ∷ []

unfoldable pub write_stats_tsv : {D : Type 0} → List (Report D) → Bytes
unfolding compute decimal
write_stats_tsv reports =
    let s = compute reports in
    codes "# stats num_domains="
    ++ (decimal s.num_domains ++ b'\n' ∷ rows (stats_columns ∷ map stats_row s.feature_stats))
