-- ===== src/Tests/Runs.antt =====
-- The theorems on the classifier and on the command, at concrete probes and domains.
use mailsec_probe.Classifier.Features.{IsFull, run-IsFull}
use mailsec_probe.Cli.{merge_domains, exit_code, known_format}
use mailsec_probe.Cli.Domains.{IsMerged, merge_domains-IsMerged}
use mailsec_probe.Cli.Exit.{IsWritten, run-IsWritten, run-usage}
use mailsec_probe.Dedupe.{mem, dedupe_from, dedupe_by}
use mailsec_probe.FanOut.{IsComplete}
use mailsec_probe.Signals.{Status, present, absent, unknown, Feature, Report}
use mailsec_probe.Text.{Bytes, codes, str_eq, is_space, trim_left, trim_right, trim_space, to_lower}
use mailsec_probe.Common.{
  ℕ, ◌≡◌, refl, true, none, some, List, [], ◌∷◌, map, arith, ◌++◌, ◌↔◌, ◌⊎◌, false,
}
use mathlib.Core.List.{cons-ne-nil}
use mailsec_probe.Tests.{example_domain}
use mailsec_probe.Output.{header_cells, all_cells, write_tsv}
use mailsec_probe.Output.Rows.{IsPlain, read_rows, write_tsv-read_rows}
use mailsec_probe.Stats.{compute}
use mailsec_probe.Stats.Exact.{IsExact, compute-IsExact}

abbrev one_feature : Bytes → Status → Feature ℕ
one_feature name status = record {
  name = name;
  status = status;
  confidence = 90;
  reasons = codes "found\there" ∷ [];
  details = none;
  signals = [];
}

abbrev two_probes : List (mailsec_probe.Classifier.Probe ℕ)
two_probes =
    (λ d. one_feature (codes "mx") present ∷ [])
    ∷ (λ d. one_feature (codes "spf") unknown ∷ one_feature (codes "new") absent ∷ [])
    ∷ []

two_probes-IsComplete : IsComplete two_probes (1 ∷ 0 ∷ [])
two_probes-IsComplete i h = ground (arith, h)

run-IsFull_example :
    IsFull ℕ two_probes example_domain
      (mailsec_probe.Classifier.run two_probes example_domain 7 (1 ∷ 0 ∷ []))
run-IsFull_example =
    run-IsFull two_probes example_domain 7 (1 ∷ 0 ∷ []) two_probes-IsComplete (cons-ne-nil _ _)

abbrev arguments : List Bytes
arguments = codes " Example.COM" ∷ codes "example.org" ∷ []

abbrev file_lines : List Bytes
file_lines = codes "example.com" ∷ []

merge_domains-IsMerged_example : IsMerged arguments file_lines (merge_domains arguments file_lines)
merge_domains-IsMerged_example = merge_domains-IsMerged arguments file_lines

abbrev report_of : Bytes → Report ℕ
report_of d = record {
  domain = d;
  queried_at = 7;
  features = one_feature (codes "spf") unknown ∷ [];
  errors = [];
}

merged_pair : merge_domains arguments file_lines ≡ codes "example.com" ∷ codes "example.org" ∷ []
unfolding merge_domains dedupe_by dedupe_from mem str_eq trim_space trim_left trim_right is_space
    to_lower
merged_pair = refl

merged_pair-IsComplete : IsComplete (merge_domains arguments file_lines) (1 ∷ 0 ∷ [])
merged_pair-IsComplete = rw merged_pair (λ i h. ground (arith, h))

run-IsWritten_example : IsWritten ℕ (map report_of (merge_domains arguments file_lines)) (
    mailsec_probe.Cli.run true
      (codes "tsv")
      report_of
      arguments
      (some file_lines)
      (1 ∷ 0 ∷ [])
      (report_of []))
run-IsWritten_example =
    run-IsWritten (codes "tsv") report_of arguments file_lines (1 ∷ 0 ∷ []) (report_of [])
      (unfold str_eq in refl) (rw merged_pair (cons-ne-nil _ _)) merged_pair-IsComplete

one_report-IsPlain : IsPlain ℕ (report_of example_domain)
one_report-IsPlain = record {
  domain_cell = (ground arith, ground arith);
  name_cells = ((ground arith, ground arith), tt);
}

write_tsv-read_rows_example :
    read_rows (write_tsv (report_of example_domain ∷ []))
    ≡ (header_cells ∷ all_cells (report_of example_domain ∷ [])) ++ ([] ∷ []) ∷ []
write_tsv-read_rows_example =
    write_tsv-read_rows (report_of example_domain ∷ []) (one_report-IsPlain, tt)

run-usage_example :
    (exit_code (
        mailsec_probe.Cli.run true
          (codes "xml")
          report_of
          arguments
          (some file_lines)
          (1 ∷ 0 ∷ [])
          (report_of []))
      ≡ 2)
    ↔ ((true ≡ false)
        ⊎ ((merge_domains arguments file_lines ≡ []) ⊎ (known_format (codes "xml") ≡ false)))
run-usage_example =
    run-usage true (codes "xml") report_of arguments file_lines (1 ∷ 0 ∷ []) (report_of [])

compute-IsExact_example :
    IsExact ℕ
      (report_of example_domain ∷ report_of (codes "example.org") ∷ [])
      (compute (report_of example_domain ∷ report_of (codes "example.org") ∷ [])).feature_stats
      (codes "spf")
compute-IsExact_example =
    compute-IsExact (report_of example_domain ∷ report_of (codes "example.org") ∷ []) (codes "spf")
