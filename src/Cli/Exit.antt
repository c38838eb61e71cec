-- ===== src/Cli/Exit.antt =====
-- `run` of internal/cli/cli.go: the reports and the exit code.
use mailsec_probe.Cli.{
  all_unknown, run, merge_domains, domain_failed, any_domain_failed, End, written, known_format,
  finish_run, observe_all, exit_code,
}
use mailsec_probe.Common.{
  length, All, ltb, ◌≡◌, refl, ◌≢◌, ◌↔◌, true, List, [], ◌∷◌, arith, ◌==◌, Bool-cases, ℕ, ◌⊎◌, inl,
  inr, false, ◌||◌, some, map, Bool,
}
use mailsec_probe.Signals.{
  Status, unknown, status_eq, Feature, Report, present, absent, misconfigured, skipped,
}
use mathlib.Core.List.{cons-ne-nil}
use mailsec_probe.FanOut.{IsComplete, fan_out}
use mailsec_probe.FanOut.Order.{fan_out-map}
use mailsec_probe.Text.{Bytes}

-- A domain was not observed: its report has an error, or no feature but unknown ones.
pub data IsFailed (D : Type 0) (r : Report D) : Type 0 where
  by_error : r.errors ≢ [] → IsFailed D r
  by_unknown : All (λ (f : Feature D). f.status ≡ unknown) r.features → IsFailed D r

status_eq-unknown : (s : Status) → (status_eq s unknown ≡ true) ↔ (s ≡ unknown)
unfolding status_eq
status_eq-unknown present = ground arith
status_eq-unknown absent = ground arith
status_eq-unknown unknown = ground arith
status_eq-unknown misconfigured = ground arith
status_eq-unknown skipped = ground arith

all_unknown-All :
    {D : Type 0} (fs : List (Feature D))
    → (all_unknown fs ≡ true) ↔ All (λ (f : Feature D). f.status ≡ unknown) fs
all_unknown-All [] = (λ _. tt, λ _. refl)
all_unknown-All (f ∷ fs) =
    let ih = all_unknown-All fs in
    let here = status_eq-unknown f.status in
    (
      (λ h. (here.0 (ground arith), ih.0 (ground arith))),
      λ (e, rest). ground (arith, here.1 e, ih.1 rest),
    )

nonempty : {A : Type 0} (xs : List A) → (ltb 0 (length xs) ≡ true) ↔ (xs ≢ [])
nonempty [] = ((λ h. cc), λ ne. absurd (ne refl))
nonempty (x ∷ xs) = ((λ _. cons-ne-nil x xs), λ _. ground arith)

domain_failed-IsFailed : {D : Type 0} (r : Report D) → (domain_failed r ≡ true) → IsFailed D r
domain_failed-IsFailed {D} r h = elim (Bool-cases (ltb 0 (length r.errors))) [
  | inl e ↦ by_error ((nonempty r.errors).0 e)
  | inr e ↦ by_unknown ((all_unknown-All r.features).0 (go r.features (rw e at h)))
]
  where
    go : (fs : List (Feature D)) → (length fs == 0 || all_unknown fs) ≡ true → all_unknown fs ≡ true
    go [] k = refl
    go (f ∷ fs) k = ground arith

IsFailed-domain_failed : {D : Type 0} (r : Report D) → IsFailed D r → domain_failed r ≡ true
IsFailed-domain_failed r (by_error ne) = rw ((nonempty r.errors).1 ne)
IsFailed-domain_failed r (by_unknown all) = rw ((all_unknown-All r.features).1 all) (ground arith)

any_domain_failed-All :
    {D : Type 0} (reports : List (Report D))
    → (any_domain_failed reports ≡ false) ↔ All (λ r. ¬ IsFailed D r) reports
unfolding any_domain_failed
any_domain_failed-All [] = (λ _. tt, λ _. refl)
any_domain_failed-All {D} (r ∷ reports) =
    let ih = any_domain_failed-All reports in
    elim (Bool-cases (domain_failed r)) [
      | inl bad ↦
          ((λ h. cc (rw bad at h)), λ (fine, _). absurd (fine (domain_failed-IsFailed r bad)))
      | inr good ↦ (
        (λ h. ((λ f. cc (rw (IsFailed-domain_failed r f) at good)), ih.0 (rw good at h))),
        λ (_, rest). rw good (ih.1 rest),
      )
    ]

-- What the command promises once the flags, the file and the format are good: a report for each of
-- the domains, in their order, whatever order they finish in; the exit code 0 if no domain failed to
-- be observed, and 1 otherwise.
pub record IsWritten (D : Type 0) (reports : List (Report D)) (end : End D) : Type 0 where
  pub code : ℕ
  pub wrote : end ≡ written code reports
  pub range : (code ≡ 0) ⊎ (code ≡ 1)
  pub clean : (code ≡ 0) ↔ All (λ r. ¬ IsFailed D r) reports

finish_run-IsWritten :
    {D : Type 0} (format : Bytes) (reports : List (Report D))
    → known_format format ≡ true
    → IsWritten D reports (finish_run format reports)
finish_run-IsWritten format reports known =
    let spec = any_domain_failed-All reports in
    elim (Bool-cases (any_domain_failed reports)) [
      | inl bad ↦ record {
        code = 1;
        wrote = rw (known, bad);
        range = inr refl;
        clean = ((λ h. absurd (omega (arith, h))), λ all. cc (rw (spec.1 all) at bad));
      }
      | inr good ↦ record {
        code = 0;
        wrote = rw (known, good);
        range = inl refl;
        clean = ((λ _. spec.0 good), λ _. refl);
      }
    ]

-- If the transports and probes are built, the file is read, the format is known and some domain is
-- given, then `run` writes the report of every merged domain, in their order, whatever order the
-- domains finish in. The exit code is 0 if every domain was observed, and 1 if some report has an
-- error or no feature that is not unknown.
pub run-IsWritten :
    {D : Type 0} (format : Bytes) (runner : Bytes → Report D) (args lines : List Bytes)
    (schedule : List ℕ) (blank : Report D)
    → known_format format ≡ true
    → merge_domains args lines ≢ []
    → IsComplete (merge_domains args lines) schedule
    → IsWritten D
        (map runner (merge_domains args lines))
        (run true format runner args (some lines) schedule blank)
unfolding run
run-IsWritten {D} format runner args lines schedule blank known some_domain complete =
    go (merge_domains args lines) some_domain complete
  where
    go :
        (domains : List Bytes)
        → domains ≢ []
        → IsComplete domains schedule
        → IsWritten D (map runner domains) (observe_all true format runner domains schedule blank)
    go [] ne c = absurd (ne refl)
    go (d ∷ domains) ne c =
        rw (fan_out-map runner blank (d ∷ domains) schedule c)
          (finish_run-IsWritten format (map runner (d ∷ domains)) known)

abbrev IsUsage : {D : Type 0} → Bool → Bytes → List Bytes → End D → Type 0
IsUsage ready format domains end =
    (exit_code end ≡ 2) ↔ ((ready ≡ false) ⊎ ((domains ≡ []) ⊎ (known_format format ≡ false)))

finish_run-usage :
    {D : Type 0} (format : Bytes) (reports : List (Report D))
    → (exit_code (finish_run format reports) ≡ 2) ↔ (known_format format ≡ false)
finish_run-usage format reports = elim (Bool-cases (known_format format)) [
  | inl known ↦ elim (Bool-cases (any_domain_failed reports)) [
    | inl bad ↦ rw (known, bad) (ground arith)
    | inr good ↦ rw (known, good) (ground arith)
  ]
  | inr other ↦ rw other (ground arith)
]

observe_all-IsUsage :
    {D : Type 0} (ready : Bool) (format : Bytes) (runner : Bytes → Report D) (domains : List Bytes)
    (schedule : List ℕ) (blank : Report D)
    → IsUsage ready format domains (observe_all ready format runner domains schedule blank)
observe_all-IsUsage ready format runner [] schedule blank = ((λ _. inr (inl refl)), λ _. refl)
observe_all-IsUsage false format runner (d ∷ domains) schedule blank = ((λ _. inl refl), λ _. refl)
observe_all-IsUsage true format runner (d ∷ domains) schedule blank =
    let spec = finish_run-usage format (fan_out runner blank (d ∷ domains) schedule) in
    (
      (λ h. inr (inr (spec.0 h))),
      λ h. elim h [
        | inl bad ↦ cc
        | inr (inl empty) ↦ absurd (cons-ne-nil d domains empty)
        | inr (inr other) ↦ spec.1 other
      ],
    )

-- With the file read, the exit code of `run` is 2 exactly when the transports or the probes could not
-- be built, no domain is given, or the output format is unknown.
pub run-usage :
    {D : Type 0} (ready : Bool) (format : Bytes) (runner : Bytes → Report D)
    (args lines : List Bytes) (schedule : List ℕ) (blank : Report D)
    → (exit_code (run ready format runner args (some lines) schedule blank) ≡ 2)
      ↔ ((ready ≡ false) ⊎ ((merge_domains args lines ≡ []) ⊎ (known_format format ≡ false)))
unfolding run
run-usage ready format runner args lines schedule blank =
    observe_all-IsUsage ready format runner (merge_domains args lines) schedule blank
