-- ===== src/Cli.antt =====
-- internal/cli/input.go and the parts of internal/cli/cli.go that decide what is observed and how
-- the command ends. The flags are read by a package outside the repository; the content of a file is
-- an argument, `none` where it cannot be opened.
pub mod Domains
pub mod Exit
pub mod Suite
pub mod Build
pub mod Command
use mailsec_probe.Common.{
  length, ltb, ◌==◌, if◌then◌else◌, ℕ, ◌*◌, Bool, true, false, ◌&&◌, ◌||◌, Option, none, some, List,
  [], ◌∷◌, ◌++◌,
}
use mailsec_probe.Dedupe.{dedupe_by}
use mailsec_probe.FanOut.{fan_out}
use mailsec_probe.Scanner.{scan_lines}
use mailsec_probe.Signals.{unknown, status_eq, Feature, Report}
use mailsec_probe.Text.{Bytes, codes, str_eq, is_empty, trim_space, to_lower, has_prefix}

-- The lines that `readDomainsFile` keeps.
pub domain_lines : List Bytes → List Bytes
unfolding trim_space has_prefix
domain_lines [] = []
domain_lines (text ∷ texts) =
    let rest = domain_lines texts in
    let line = trim_space text in
    if is_empty line || has_prefix line (codes "#") then rest else line ∷ rest

abbrev pub scanned : List Bytes × Bool → Option (List Bytes)
scanned (texts, true) = none
scanned (texts, false) = some (domain_lines texts)

-- The buffer limit of 4 MiB.
abbrev pub input_limit : ℕ
input_limit = 4 * 1024 * 1024

-- `readDomainsFile` on the path and the content behind it; the errors' texts are left out.
unfoldable pub read_domains_file : Bytes → Option Bytes → Option (List Bytes)
unfolding scan_lines domain_lines
read_domains_file [] content = some []
read_domains_file (c ∷ path) none = none
read_domains_file (c ∷ path) (some text) = scanned (scan_lines input_limit text)

abbrev pub normal_domain : Bytes → Bytes
normal_domain d = to_lower (trim_space d)

-- The two nested loops of `mergeDomains` go through the first list and then the second.
unfoldable pub merge_domains : List Bytes → List Bytes → List Bytes
unfolding dedupe_by trim_space to_lower
merge_domains a b = dedupe_by normal_domain (a ++ b)

abbrev pub all_unknown : {D : Type 0} → List (Feature D) → Bool
all_unknown [] = true
all_unknown (f ∷ fs) = status_eq f.status unknown && all_unknown fs

-- One round of the loop of `anyDomainFailed`.
abbrev pub domain_failed : {D : Type 0} → Report D → Bool
domain_failed r = ltb 0 (length r.errors) || length r.features == 0 || all_unknown r.features

unfoldable pub any_domain_failed : {D : Type 0} → List (Report D) → Bool
any_domain_failed [] = false
any_domain_failed (r ∷ reports) = domain_failed r || any_domain_failed reports

-- How the command ends: exit code 2 without a report, or reports with the exit code 0 or 1. An
-- unknown output format is found after the observation, and nothing is written.
pub data End (D : Type 0) : Type 0 where
  usage_error : End D
  written : ℕ → List (Report D) → End D

abbrev pub exit_code : {D : Type 0} → End D → ℕ
exit_code usage_error = 2
exit_code (written code reports) = code

abbrev pub known_format : Bytes → Bool
known_format format =
    str_eq format (codes "json")
    || str_eq format (codes "tsv")
    || str_eq format (codes "human")
    || is_empty format

abbrev finish_run : {D : Type 0} → Bytes → List (Report D) → End D
finish_run format reports =
    if known_format format
    then written (if any_domain_failed reports then 1 else 0) reports
    else usage_error

abbrev observe_all :
    {D : Type 0} → Bool → Bytes → (Bytes → Report D) → List Bytes → List ℕ → Report D → End D
observe_all ready format runner [] schedule blank = usage_error
observe_all ready format runner (d ∷ domains) schedule blank =
    if ready then finish_run format (fan_out runner blank (d ∷ domains) schedule) else usage_error

abbrev on_file :
    {D : Type 0}
    → Bool
    → Bytes
    → (Bytes → Report D)
    → List Bytes
    → Option (List Bytes)
    → List ℕ
    → Report D
    → End D
on_file ready format runner args none schedule blank = usage_error
on_file ready format runner args (some file) schedule blank =
    observe_all ready format runner (merge_domains args file) schedule blank

-- `run`: `ready` says that the transports and the probes were built without an error, `schedule` is
-- the order in which the domains finish, and `blank` the zero report. Writing does not fail.
unfoldable pub run :
    {D : Type 0}
    → Bool
    → Bytes
    → (Bytes → Report D)
    → List Bytes
    → Option (List Bytes)
    → List ℕ
    → Report D
    → End D
unfolding merge_domains any_domain_failed fan_out str_eq
run ready format runner args file schedule blank =
    on_file ready format runner args file schedule blank
