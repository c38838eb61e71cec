-- ===== src/Stats/Exact.antt =====
-- `Compute` of internal/output/stats.go against the features of the reports.
use mailsec_probe.Common.{
  sum_by, if◌then◌else◌, ℕ, ◌+◌, ◌≤◌, ◌≡◌, refl, ◌∙◌, Bool, true, List, [], arith,
}
use mailsec_probe.Signals.{
  Status, present, absent, unknown, misconfigured, skipped, status_eq, Report,
}
use mailsec_probe.Sort.Laws.{sum_by-sort_stable}
use mailsec_probe.Stats.{FeatureStat, bump, tally_reports, more_observed, compute}
use mailsec_probe.Stats.Counts.{
  of_name, one_if, IsCounter, rows_of, sum_by-tally_reports, rows_of-tally_reports,
}
use mailsec_probe.Text.{Bytes, str_eq}

abbrev any_status : Status → Bool
any_status s = true

abbrev pub is_status : Status → Status → Bool
is_status t s = status_eq s t

-- How often the feature stands in the reports, measured and with a status that is counted.
abbrev pub occurrences : {D : Type 0} → (Status → Bool) → Bytes → List (Report D) → ℕ
occurrences {D} counted n reports =
    sum_by (λ (r : Report D). sum_by (one_if counted n) r.features) reports

total-IsCounter : IsCounter (λ c. c.total) any_status
total-IsCounter = record { starts = λ n. refl; steps = λ s c. go s c }
  where
    go : (s : Status) (c : FeatureStat) → (bump s c).total ≡ c.total + 1
    go present c = refl
    go absent c = refl
    go misconfigured c = refl
    go unknown c = refl
    go skipped c = refl

present-IsCounter : IsCounter (λ c. c.n_present) (is_status present)
unfolding status_eq
present-IsCounter = record { starts = λ n. refl; steps = λ s c. go s c }
  where
    go :
        (s : Status) (c : FeatureStat)
        → (bump s c).n_present ≡ c.n_present + (if is_status present s then 1 else 0)
    go present c = refl
    go absent c = omega arith
    go misconfigured c = omega arith
    go unknown c = omega arith
    go skipped c = omega arith

absent-IsCounter : IsCounter (λ c. c.n_absent) (is_status absent)
unfolding status_eq
absent-IsCounter = record { starts = λ n. refl; steps = λ s c. go s c }
  where
    go :
        (s : Status) (c : FeatureStat)
        → (bump s c).n_absent ≡ c.n_absent + (if is_status absent s then 1 else 0)
    go present c = omega arith
    go absent c = refl
    go misconfigured c = omega arith
    go unknown c = omega arith
    go skipped c = omega arith

misconfigured-IsCounter : IsCounter (λ c. c.n_misconfigured) (is_status misconfigured)
unfolding status_eq
misconfigured-IsCounter = record { starts = λ n. refl; steps = λ s c. go s c }
  where
    go :
        (s : Status) (c : FeatureStat)
        → (bump s c).n_misconfigured
          ≡ c.n_misconfigured + (if is_status misconfigured s then 1 else 0)
    go present c = omega arith
    go absent c = omega arith
    go misconfigured c = refl
    go unknown c = omega arith
    go skipped c = omega arith

unknown-IsCounter : IsCounter (λ c. c.n_unknown) (is_status unknown)
unfolding status_eq
unknown-IsCounter = record { starts = λ n. refl; steps = λ s c. go s c }
  where
    go :
        (s : Status) (c : FeatureStat)
        → (bump s c).n_unknown ≡ c.n_unknown + (if is_status unknown s then 1 else 0)
    go present c = omega arith
    go absent c = omega arith
    go misconfigured c = omega arith
    go unknown c = refl
    go skipped c = omega arith

-- The rows of one name: there is one at most, and its counters are the numbers of the features of
-- that name, those that were skipped left out.
pub record IsExact (D : Type 0) (reports : List (Report D)) (found : List FeatureStat) (n : Bytes)
    : Type 0 where
  pub one_row : rows_of n found ≤ 1
  pub totals : sum_by (of_name (λ c. c.total) n) found ≡ occurrences any_status n reports
  pub presents :
      sum_by (of_name (λ c. c.n_present) n) found ≡ occurrences (is_status present) n reports
  pub absents :
      sum_by (of_name (λ c. c.n_absent) n) found ≡ occurrences (is_status absent) n reports
  pub misconfigureds :
      sum_by (of_name (λ c. c.n_misconfigured) n) found
      ≡ occurrences (is_status misconfigured) n reports
  pub unknowns :
      sum_by (of_name (λ c. c.n_unknown) n) found ≡ occurrences (is_status unknown) n reports

compute-counter :
    {D : Type 0} {field : FeatureStat → ℕ} {counted : Status → Bool}
    → IsCounter field counted
    → (n : Bytes) (reports : List (Report D))
    → sum_by (of_name field n) (compute reports).feature_stats ≡ occurrences counted n reports
unfolding compute
compute-counter {field = field} k n reports =
    sum_by-sort_stable more_observed (of_name field n) (tally_reports [] reports)
    ∙ omega (arith, sum_by-tally_reports k n [] reports)

compute-one_row :
    {D : Type 0} (n : Bytes) (reports : List (Report D))
    → rows_of n (compute reports).feature_stats ≤ 1
unfolding compute
compute-one_row n reports =
    rw
      (sum_by-sort_stable more_observed (λ c. if str_eq c.feature_name n then 1 else 0)
        (tally_reports [] reports))
      (rows_of-tally_reports n [] reports (omega arith))

-- `Compute` counts each feature exactly: for every name there is one row at most, its total is the
-- number of features of that name in all the reports, the skipped ones left out, and each of the
-- other counters is the number of those with that status; a name with no row has none of them.
pub compute-IsExact :
    {D : Type 0} (reports : List (Report D)) (n : Bytes)
    → IsExact D reports (compute reports).feature_stats n
compute-IsExact reports n = record {
  one_row = compute-one_row n reports;
  totals = compute-counter total-IsCounter n reports;
  presents = compute-counter present-IsCounter n reports;
  absents = compute-counter absent-IsCounter n reports;
  misconfigureds = compute-counter misconfigured-IsCounter n reports;
  unknowns = compute-counter unknown-IsCounter n reports;
}
