-- ===== src/Cli/Command.antt =====
-- `run` of internal/cli/cli.go as a whole, with `Execute`: from the options, the arguments and the
-- content of the file to what is written and the exit code. Writing does not fail.
pub mod Tsv
use mailsec_probe.Cli.{run, read_domains_file, End, usage_error, written, merge_domains}
use mailsec_probe.Cli.Build.{RootOpts, World, build}
use mailsec_probe.Cli.Build.Complete.{as_probe}
use mailsec_probe.Cli.Suite.{AnyDetails, any_summary, AnyProbe, Surroundings, run_probe}
use mailsec_probe.Common.{
  if◌then◌else◌, ℕ, ◌⊎◌, inl, inr, Bool, true, false, Option, List, [], ◌++◌, map, none, some, ◌∷◌,
}
use mailsec_probe.Output.{write_tsv}
use mailsec_probe.Output.Color.{new_colorizer}
use mailsec_probe.Output.Human.{write_human_colored}
use mailsec_probe.Signals.{Report, Feature}
use mailsec_probe.Stats.Writers.{write_stats_human_colored, write_stats_tsv}
use mailsec_probe.Text.{Bytes, codes, str_eq}
use mailsec_probe.Outcome.{Outcome, returned, ◌>>=◌}

-- What a run takes of its surroundings besides the network: the time, the orders in which the probes
-- of a domain and the domains finish, the JSON document, NO_COLOR and the test for a terminal.
pub record Session : Type 0 where
  pub surroundings : Surroundings
  pub now : ℕ
  pub probe_order : Bytes → List ℕ
  pub domain_order : List ℕ
  pub json : List (Report AnyDetails) → Bool → Bytes
  pub no_color : Bool
  pub terminal : Bool

pub record Ran : Type 0 where
  pub stdout : Bytes
  pub code : ℕ

abbrev with_stats : Bool → Bytes → Bytes
with_stats stats text = if stats then text else []

-- The switch on the format. A format that is not known ends in `usage_error`.
unfoldable pub output_text : Session → RootOpts → List (Report AnyDetails) → Bytes
unfolding str_eq write_tsv write_stats_tsv write_human_colored write_stats_human_colored
    new_colorizer any_summary
output_text s opts reports =
    let colorizer = new_colorizer opts.color s.no_color s.terminal in
    if str_eq opts.output_fmt (codes "json")
    then s.json reports opts.stats
    else if str_eq opts.output_fmt (codes "tsv")
    then write_tsv reports ++ with_stats opts.stats (write_stats_tsv reports)
    else write_human_colored colorizer any_summary reports
      ++ with_stats opts.stats (write_stats_human_colored colorizer reports)

abbrev print : Session → RootOpts → End AnyDetails → Ran
print s opts usage_error = record { stdout = []; code = 2 }
print s opts (written code reports) = record { stdout = output_text s opts reports; code = code }

-- The report of `runner.Run`, where every probe returns.
abbrev pub report_with : Session → List AnyProbe → Bytes → Report AnyDetails
report_with s probes d =
    mailsec_probe.Classifier.run (map (as_probe s.surroundings) probes) d s.now (s.probe_order d)

-- The goroutines of a domain, one for each probe: `runner.Run` waits for all of them, and a panic of
-- one ends the program.
pub probe_results :
    Surroundings → Bytes → List AnyProbe → Outcome (List (List (Feature AnyDetails)))
unfolding run_probe
probe_results env d [] = returned []
probe_results env d (p ∷ probes) =
    run_probe env p d >>= λ fs. probe_results env d probes >>= λ rest. returned (fs ∷ rest)

-- `runner.Run`. A merged domain is not empty, so its probes are called.
abbrev pub observe_with : Session → List AnyProbe → Bytes → Outcome (Report AnyDetails)
observe_with s probes d =
    probe_results s.surroundings d probes >>= λ _. returned (report_with s probes d)

-- The goroutines of the domains.
pub observe_domains : Session → List AnyProbe → List Bytes → Outcome (List (Report AnyDetails))
unfolding probe_results
observe_domains s probes [] = returned []
observe_domains s probes (d ∷ domains) = observe_with s probes d >>= λ r.
    observe_domains s probes domains >>= λ reports. returned (r ∷ reports)

abbrev no_report : Report AnyDetails
no_report = record { domain = []; queried_at = 0; features = []; errors = [] }

-- Without probes, `run` of Cli observes nothing.
abbrev with_probes :
    Session → RootOpts → List Bytes → Option (List Bytes) → List AnyProbe ⊎ Bytes → End AnyDetails
with_probes s opts args file (inr e) =
    run false opts.output_fmt (λ d. no_report) args file s.domain_order no_report
with_probes s opts args file (inl probes) =
    run true opts.output_fmt (report_with s probes) args file s.domain_order no_report

-- What is observed before anything is written: nothing, if the probes or the domains are missing.
abbrev observed :
    Session
    → List Bytes
    → Option (List Bytes)
    → List AnyProbe ⊎ Bytes
    → Outcome (List (Report AnyDetails))
observed s args file (inr e) = returned []
observed s args none (inl probes) = returned []
observed s args (some lines) (inl probes) = observe_domains s probes (merge_domains args lines)

-- `panicked` is the end of the program by a panic: Go exits with 2, and nothing is on stdout.
unfoldable pub command : World → Session → RootOpts → List Bytes → Option Bytes → Outcome Ran
unfolding run build output_text read_domains_file mailsec_probe.Classifier.run observe_domains
    merge_domains
command w s opts args content =
    let file = read_domains_file opts.input_file content in
    let probes = build w opts in
    observed s args file probes >>= λ _.
    returned (print s opts (with_probes s opts args file probes))
