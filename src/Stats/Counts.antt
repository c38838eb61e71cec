-- ===== src/Stats/Counts.antt =====
-- The loops of `Compute`, of internal/output/stats.go, against the features of the reports.
use mailsec_probe.Common.{
  if◌then◌else◌, Bool-cases, ℕ, ◌+◌, ◌≡◌, refl, inl, inr, Bool, not, ◌&&◌, List, [], ◌∷◌, arith,
  sum_by, ◌≤◌, false,
}
use mailsec_probe.Signals.{
  Status, present, absent, unknown, misconfigured, skipped, status_eq, Feature, Report,
}
use mailsec_probe.Stats.{
  FeatureStat, no_counts, bump, count_feature, add_feature, tally, tally_reports,
}
use mailsec_probe.Text.{Bytes, str_eq}
use mailsec_probe.Text.Match.{str_eq_iff, str_eq_refl}

-- What a row of the name counts.
abbrev pub of_name : (FeatureStat → ℕ) → Bytes → FeatureStat → ℕ
of_name field n c = if str_eq c.feature_name n then field c else 0

-- What a feature of the name adds to the counter: one, if it was measured and its status is counted.
abbrev pub one_if : {D : Type 0} → (Status → Bool) → Bytes → Feature D → ℕ
one_if counted n f =
    if not (status_eq f.status skipped) && str_eq f.name n && counted f.status then 1 else 0

-- The counter and the statuses that it counts.
pub record IsCounter (field : FeatureStat → ℕ) (counted : Status → Bool) : Type 0 where
  pub starts : (n : Bytes) → field (no_counts n) ≡ 0
  pub steps :
      (s : Status) (c : FeatureStat) → field (bump s c) ≡ field c + (if counted s then 1 else 0)

bump-name : (s : Status) (c : FeatureStat) → (bump s c).feature_name ≡ c.feature_name
bump-name present c = refl
bump-name absent c = refl
bump-name misconfigured c = refl
bump-name unknown c = refl
bump-name skipped c = refl

module _ {field : FeatureStat → ℕ} {counted : Status → Bool} (k : IsCounter field counted) where
  of_name-bump :
      (n : Bytes) (s : Status) (c : FeatureStat)
      → of_name field n (bump s c)
        ≡ of_name field n c + (if str_eq c.feature_name n && counted s then 1 else 0)
  of_name-bump n s c = rw (bump-name s c, k.steps s c) (ground arith)

  of_name-fresh :
      (n m : Bytes) (s : Status)
      → of_name field n (bump s (no_counts m)) ≡ (if str_eq m n && counted s then 1 else 0)
  of_name-fresh n m s = rw (of_name-bump n s (no_counts m), k.starts m) (ground arith)

  sum_by-count_feature :
      (n m : Bytes) (s : Status) (cs : List FeatureStat)
      → sum_by (of_name field n) (count_feature cs m s)
        ≡ sum_by (of_name field n) cs + (if str_eq m n && counted s then 1 else 0)
  unfolding count_feature
  sum_by-count_feature n m s [] = rw (of_name-fresh n m s) (omega arith)
  sum_by-count_feature n m s (c ∷ cs) = elim (Bool-cases (str_eq c.feature_name m)) [
    | inl here ↦
        let e = (str_eq_iff c.feature_name m).0 here in
        rw (here, of_name-bump n s c, e) (omega arith)
    | inr later ↦ rw (later, sum_by-count_feature n m s cs) (omega arith)
  ]

  sum_by-add_feature :
      {D : Type 0} (n : Bytes) (cs : List FeatureStat) (f : Feature D)
      → sum_by (of_name field n) (add_feature cs f)
        ≡ sum_by (of_name field n) cs + one_if counted n f
  sum_by-add_feature n cs f = elim (Bool-cases (status_eq f.status skipped)) [
    | inl off ↦ rw off (omega arith)
    | inr measured ↦ rw (measured, sum_by-count_feature n f.name f.status cs)
  ]

  sum_by-tally :
      {D : Type 0} (n : Bytes) (cs : List FeatureStat) (fs : List (Feature D))
      → sum_by (of_name field n) (tally cs fs)
        ≡ sum_by (of_name field n) cs + sum_by (one_if counted n) fs
  unfolding tally
  sum_by-tally n cs [] = omega arith
  sum_by-tally n cs (f ∷ fs) =
      rw (sum_by-tally n (add_feature cs f) fs, sum_by-add_feature n cs f) (omega arith)

  pub sum_by-tally_reports :
      {D : Type 0} (n : Bytes) (cs : List FeatureStat) (reports : List (Report D))
      → sum_by (of_name field n) (tally_reports cs reports)
        ≡ sum_by (of_name field n) cs
          + sum_by (λ (r : Report D). sum_by (one_if counted n) r.features) reports
  unfolding tally_reports
  sum_by-tally_reports n cs [] = omega arith
  sum_by-tally_reports n cs (r ∷ reports) =
      rw (sum_by-tally_reports n (tally cs r.features) reports, sum_by-tally n cs r.features)
        (omega arith)

-- How many rows have the name.
abbrev pub rows_of : Bytes → List FeatureStat → ℕ
rows_of n = sum_by (λ c. if str_eq c.feature_name n then 1 else 0)

rows_of-other :
    (n m : Bytes) (s : Status) (cs : List FeatureStat)
    → str_eq m n ≡ false
    → rows_of n (count_feature cs m s) ≡ rows_of n cs
unfolding count_feature
rows_of-other n m s [] h = rw (bump-name s (no_counts m), h)
rows_of-other n m s (c ∷ cs) h = elim (Bool-cases (str_eq c.feature_name m)) [
  | inl here ↦ rw (here, bump-name s c)
  | inr later ↦ rw (later, rows_of-other n m s cs h)
]

rows_of-same :
    (n : Bytes) (s : Status) (cs : List FeatureStat)
    → rows_of n cs ≤ 1
    → rows_of n (count_feature cs n s) ≤ 1
unfolding count_feature
rows_of-same n s [] h = rw (bump-name s (no_counts n), str_eq_refl n) (omega arith)
rows_of-same n s (c ∷ cs) h = elim (Bool-cases (str_eq c.feature_name n)) [
  | inl here ↦ rw (here, bump-name s c) h
  | inr later ↦
      let few : rows_of n cs ≤ 1 = ground (arith, later, h) in
      let ih = rows_of-same n s cs few in rw later (ground (arith, later, ih))
]

rows_of-add_feature :
    {D : Type 0} (n : Bytes) (cs : List FeatureStat) (f : Feature D)
    → rows_of n cs ≤ 1
    → rows_of n (add_feature cs f) ≤ 1
rows_of-add_feature n cs f h = elim (Bool-cases (status_eq f.status skipped)) [
  | inl off ↦ rw off h
  | inr measured ↦ elim (Bool-cases (str_eq f.name n)) [
    | inl same ↦
        let e = (str_eq_iff f.name n).0 same in rw (measured, e) (rows_of-same n f.status cs h)
    | inr other ↦ rw (measured, rows_of-other n f.name f.status cs other) h
  ]
]

rows_of-tally :
    {D : Type 0} (n : Bytes) (cs : List FeatureStat) (fs : List (Feature D))
    → rows_of n cs ≤ 1
    → rows_of n (tally cs fs) ≤ 1
unfolding tally
rows_of-tally n cs [] h = h
rows_of-tally n cs (f ∷ fs) h = rows_of-tally n (add_feature cs f) fs (rows_of-add_feature n cs f h)

pub rows_of-tally_reports :
    {D : Type 0} (n : Bytes) (cs : List FeatureStat) (reports : List (Report D))
    → rows_of n cs ≤ 1
    → rows_of n (tally_reports cs reports) ≤ 1
unfolding tally_reports
rows_of-tally_reports n cs [] h = h
rows_of-tally_reports n cs (r ∷ reports) h =
    rows_of-tally_reports n (tally cs r.features) reports (rows_of-tally n cs r.features h)
