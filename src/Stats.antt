-- ===== src/Stats.antt =====
-- `Compute` and the row type of internal/output/stats.go: the counts of the verdicts over all domains.
-- The map from names to rows, with its order of first sight, is the list of the rows in that order.
pub mod Counts
pub mod Exact
pub mod Writers
use mailsec_probe.Common.{length, ltb, ◌==◌, if◌then◌else◌, ℕ, ◌+◌, Bool, List, [], ◌∷◌}
use mailsec_probe.Signals.{
  Status, present, absent, unknown, misconfigured, skipped, status_eq, Feature, Report,
}
use mailsec_probe.Sort.{sort_stable, str_less}
use mailsec_probe.Text.{Bytes, str_eq}

pub record FeatureStat : Type 0 where
  pub feature_name : Bytes
  pub total : ℕ
  pub n_present : ℕ
  pub n_absent : ℕ
  pub n_misconfigured : ℕ
  pub n_unknown : ℕ

pub record Stats : Type 0 where
  pub num_domains : ℕ
  pub feature_stats : List FeatureStat

abbrev pub no_counts : Bytes → FeatureStat
no_counts n = record {
  feature_name = n;
  total = 0;
  n_present = 0;
  n_absent = 0;
  n_misconfigured = 0;
  n_unknown = 0;
}

-- `c.Total++` and the switch on the status.
abbrev pub bump : Status → FeatureStat → FeatureStat
bump present c = record c { total = c.total + 1; n_present = c.n_present + 1 }
bump absent c = record c { total = c.total + 1; n_absent = c.n_absent + 1 }
bump misconfigured c = record c { total = c.total + 1; n_misconfigured = c.n_misconfigured + 1 }
bump unknown c = record c { total = c.total + 1; n_unknown = c.n_unknown + 1 }
bump skipped c = record c { total = c.total + 1 }

-- The row of the name, which is added at the end if it is not there, is counted up.
unfoldable pub count_feature : List FeatureStat → Bytes → Status → List FeatureStat
unfolding str_eq
count_feature [] n s = bump s (no_counts n) ∷ []
count_feature (c ∷ cs) n s =
    let rest = c ∷ count_feature cs n s in if str_eq c.feature_name n then bump s c ∷ cs else rest

-- One round of the inner loop.
abbrev pub add_feature : {D : Type 0} → List FeatureStat → Feature D → List FeatureStat
add_feature cs f = if status_eq f.status skipped then cs else count_feature cs f.name f.status

unfoldable pub tally : {D : Type 0} → List FeatureStat → List (Feature D) → List FeatureStat
unfolding count_feature
tally cs [] = cs
tally cs (f ∷ fs) = tally (add_feature cs f) fs

-- The two nested loops.
unfoldable pub tally_reports : {D : Type 0} → List FeatureStat → List (Report D) → List FeatureStat
unfolding tally
tally_reports cs [] = cs
tally_reports cs (r ∷ reports) = tally_reports (tally cs r.features) reports

-- By total, the largest first, and then by name.
abbrev pub more_observed : FeatureStat → FeatureStat → Bool
more_observed a b =
    if a.total == b.total then str_less a.feature_name b.feature_name else ltb b.total a.total

unfoldable pub compute : {D : Type 0} → List (Report D) → Stats
unfolding tally_reports sort_stable str_less
compute reports = record {
  num_domains = length reports;
  feature_stats = sort_stable more_observed (tally_reports [] reports);
}
