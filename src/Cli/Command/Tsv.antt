-- ===== src/Cli/Command/Tsv.antt =====
-- `run` of internal/cli/cli.go as a whole, with the format "tsv": what is written, and the exit code.
use mailsec_probe.Cli.{read_domains_file, merge_domains, End, run}
use mailsec_probe.Cli.Build.{RootOpts, World, build}
use mailsec_probe.Cli.Command.{
  Session, Ran, output_text, command, print, no_report, report_with, probe_results, observe_domains,
}
use mailsec_probe.Cli.Exit.{IsFailed, IsWritten, run-IsWritten}
use mailsec_probe.Cli.Suite.{AnyDetails, AnyProbe, Surroundings, run_probe}
use mailsec_probe.Common.{
  All, ◌≡◌, ap, ◌∙◌, ◌≢◌, ◌↔◌, ◌⊎◌, inl, false, Option, some, List, [], ◌∷◌, ◌++◌, map, append-nil,
  Some, refl, inr, true,
}
use mailsec_probe.FanOut.{IsComplete}
use mailsec_probe.Output.{header_cells, all_cells, write_tsv}
use mailsec_probe.Output.Rows.{IsPlain, read_rows, write_tsv-read_rows}
use mailsec_probe.Signals.{Report, Feature}
use mailsec_probe.Text.{Bytes, codes, str_eq}
use mailsec_probe.Cli.Build.Complete.{Returns}
use mailsec_probe.Outcome.{returned, panicked, Outcome-cases}

-- The reports of the merged domains, in their order.
abbrev pub reports_of : Session → List AnyProbe → List Bytes → List Bytes → List (Report AnyDetails)
reports_of s probes args lines = map (report_with s probes) (merge_domains args lines)

-- The setting of a run that writes rows and no statistics.
pub record IsTsvRun (w : World) (s : Session) (opts : RootOpts) (args : List Bytes)
    (content : Option Bytes) (probes : List AnyProbe) (lines : List Bytes) : Type 0 where
  pub built : build w opts ≡ inl probes
  pub reads : read_domains_file opts.input_file content ≡ some lines
  pub format : opts.output_fmt ≡ codes "tsv"
  pub no_stats : opts.stats ≡ false
  pub some_domain : merge_domains args lines ≢ []
  pub complete : IsComplete (merge_domains args lines) s.domain_order
  pub plain : All (IsPlain AnyDetails) (reports_of s probes args lines)

-- The rows are those of the reports, and the code says whether a domain failed to be observed.
pub record IsTsvResult (reports : List (Report AnyDetails)) (ran : Ran) : Type 0 where
  pub read_back : read_rows ran.stdout ≡ (header_cells ∷ all_cells reports) ++ ([] ∷ []) ∷ []
  pub range : (ran.code ≡ 0) ⊎ (ran.code ≡ 1)
  pub clean : (ran.code ≡ 0) ↔ All (λ r. ¬ IsFailed AnyDetails r) reports

output_text-tsv :
    (s : Session) (opts : RootOpts) (reports : List (Report AnyDetails))
    → opts.output_fmt ≡ codes "tsv"
    → opts.stats ≡ false
    → output_text s opts reports ≡ write_tsv reports
unfolding output_text str_eq
output_text-tsv s opts reports format no_stats =
    rw (format, no_stats) (append-nil (write_tsv reports))

print-IsTsvResult :
    (s : Session) (opts : RootOpts) (reports : List (Report AnyDetails)) (end : End AnyDetails)
    → opts.output_fmt ≡ codes "tsv"
    → opts.stats ≡ false
    → All (IsPlain AnyDetails) reports
    → IsWritten AnyDetails reports end
    → IsTsvResult reports (print s opts end)
print-IsTsvResult s opts reports end format no_stats plain is = rw is.wrote (record {
  read_back =
      ap read_rows (output_text-tsv s opts reports format no_stats)
      ∙ write_tsv-read_rows reports plain;
  range = is.range;
  clean = is.clean;
})

-- A probe panics on a domain; every probe returns on every domain.
abbrev pub AnyPanics : Session → List AnyProbe → List Bytes → Type 0
AnyPanics s probes domains =
    Some (λ d. Some (λ p. run_probe s.surroundings p d ≡ panicked) probes) domains

abbrev pub AllReturn : Session → List AnyProbe → List Bytes → Type 0
AllReturn s probes domains = All (λ d. All (Returns s.surroundings d) probes) domains

probe_results-cases :
    (env : Surroundings) (d : Bytes) (probes : List AnyProbe)
    → (Some (λ p. run_probe env p d ≡ panicked) probes × (probe_results env d probes ≡ panicked))
      ⊎ (All (Returns env d) probes
          × ((xs : List (List (Feature AnyDetails))) × (probe_results env d probes ≡ returned xs)))
unfolding probe_results
probe_results-cases env d [] = inr (tt, ([], refl))
probe_results-cases env d (p ∷ probes) = elim (Outcome-cases (run_probe env p d)) [
  | inl crash ↦ inl (inl crash, rw crash)
  | inr (fs, e) ↦ elim (probe_results-cases env d probes) [
    | inl (some_crash, crash) ↦ inl (inr some_crash, rw (e, crash))
    | inr (all, (xs, others)) ↦ inr (((fs, e), all), (fs ∷ xs, rw (e, others)))
  ]
]

observe_domains-cases :
    (s : Session) (probes : List AnyProbe) (domains : List Bytes)
    → (AnyPanics s probes domains × (observe_domains s probes domains ≡ panicked))
      ⊎ (AllReturn s probes domains
          × ((rs : List (Report AnyDetails)) × (observe_domains s probes domains ≡ returned rs)))
unfolding observe_domains
observe_domains-cases s probes [] = inr (tt, ([], refl))
observe_domains-cases s probes (d ∷ domains) = elim (probe_results-cases s.surroundings d probes) [
  | inl (here, crash) ↦ inl (inl here, rw crash)
  | inr (all, (xs, e)) ↦ elim (observe_domains-cases s probes domains) [
    | inl (later, crash) ↦ inl (inr later, rw (e, crash))
    | inr (rest, (rs, others)) ↦ inr ((all, rest), (report_with s probes d ∷ rs, rw (e, others)))
  ]
]

-- When the probes are built, the file is read, the format is "tsv" without statistics, and some
-- domain is given, the domains and feature names hold no tabs and line ends, and the domains are
-- all served: either some probe panics on some merged domain, and the program ends by a panic; or
-- every probe returns on every merged domain, the command ends, and what it writes reads back as the
-- header and the rows of the reports of the merged domains, in their order. The exit code is then 0
-- or 1, and 0 exactly if no domain failed to be observed.
pub command-IsTsvResult :
    (w : World) (s : Session) (opts : RootOpts) (args : List Bytes) (content : Option Bytes)
    (probes : List AnyProbe) (lines : List Bytes)
    → IsTsvRun w s opts args content probes lines
    → (AnyPanics s probes (merge_domains args lines) × (command w s opts args content ≡ panicked))
      ⊎ (AllReturn s probes (merge_domains args lines)
          × ((ran : Ran) × (command w s opts args content ≡ returned ran)
              × IsTsvResult (reports_of s probes args lines) ran))
unfolding command str_eq
command-IsTsvResult w s opts args content probes lines t =
    elim (observe_domains-cases s probes (merge_domains args lines)) [
      | inl (some_crash, crash) ↦ inl (some_crash, rw (t.reads, t.built, crash))
      | inr (all, (rs, e)) ↦ inr (
        all,
        (
          print s opts (
              run true opts.output_fmt (report_with s probes) args (some lines) s.domain_order
                no_report),
          rw (t.reads, t.built, e),
          print-IsTsvResult s opts (reports_of s probes args lines) _ t.format t.no_stats t.plain (
              run-IsWritten opts.output_fmt (report_with s probes) args lines s.domain_order
                no_report (rw t.format) t.some_domain t.complete),
        ),
      )
    ]
