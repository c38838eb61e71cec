-- ===== src/TxtTag/Required.antt =====
-- A probe that asks for a version tag and for one required tag: how dmarc.go and tlsrpt.go, in
-- internal/probe, judge a TXT answer.
use mailsec_probe.Signals.{Status, present, absent, misconfigured}
use mailsec_probe.Common.{
  All, if◌then◌else◌, ◌≡◌, refl, ◌≢◌, ◌↔◌, Option, none, some, List, [], arith,
}
use mailsec_probe.Text.{Bytes, is_empty}
use mailsec_probe.Text.Match.{is_empty_iff}
use mailsec_probe.TxtTag.{Pair, get, pick_by_version}
use mailsec_probe.TxtTag.Select.{Declares, IsPick, pick_by_version_iff, pick_by_version-none}

-- The status that an answer with no error calls for: absent without a record that declares the
-- version, misconfigured if the first such record has no value for the tag, present otherwise.
abbrev pub expected : Bytes → Option (Bytes × List Pair) → Status
expected tag none = absent
expected tag (some (raw, pairs)) = if is_empty (get pairs tag) then misconfigured else present

expected-absent :
    (tag : Bytes) (found : Option (Bytes × List Pair))
    → (expected tag found ≡ absent) ↔ (found ≡ none)
expected-absent tag none = ground arith
expected-absent tag (some (raw, pairs)) = ground arith

expected-misconfigured :
    (tag : Bytes) (found : Option (Bytes × List Pair))
    → (expected tag found ≡ misconfigured)
      ↔ ((raw : Bytes) × (ps : List Pair) × (found ≡ some (raw, ps)) × (get ps tag ≡ []))
expected-misconfigured tag none = ((λ h. cc), λ (_, _, e, _). cc)
expected-misconfigured tag (some (raw, pairs)) = (
  (λ h. (raw, pairs, refl, (is_empty_iff (get pairs tag)).0 (ground arith))),
  λ (raw', ps, e, h). ground (arith, is_empty_iff (get pairs tag)),
)

expected-present :
    (tag : Bytes) (found : Option (Bytes × List Pair))
    → (expected tag found ≡ present)
      ↔ ((raw : Bytes) × (ps : List Pair) × (found ≡ some (raw, ps)) × (get ps tag ≢ []))
expected-present tag none = ((λ h. cc), λ (_, _, e, _). cc)
expected-present tag (some (raw, pairs)) = (
  (λ h. (raw, pairs, refl, λ e. ground (arith, is_empty_iff (get pairs tag)))),
  λ (raw', ps, e, h). ground (arith, is_empty_iff (get pairs tag)),
)

-- The three verdicts as conditions on the records of the answer.
abbrev pub IsVerdict : List Bytes → Bytes → Bytes → Status → Type 0
IsVerdict records version tag status =
    ((status ≡ absent) ↔ All (λ r. ¬ Declares version r) records)
    × ((status ≡ misconfigured)
        ↔ ((raw : Bytes) × (ps : List Pair) × IsPick records version raw ps × (get ps tag ≡ [])))
    × ((status ≡ present)
        ↔ ((raw : Bytes) × (ps : List Pair) × IsPick records version raw ps × (get ps tag ≢ [])))

pub expected-IsVerdict :
    (records : List Bytes) (version tag : Bytes)
    → IsVerdict records version tag (expected tag (pick_by_version records version))
expected-IsVerdict records version tag =
    let found = pick_by_version records version in
    let declared = pick_by_version-none records version in
    let first = pick_by_version_iff records version in
    (
      (
        λ h. declared.0 ((expected-absent tag found).0 h),
        λ h. (expected-absent tag found).1 (declared.1 h),
      ),
      (
        λ h.
            let (raw, ps, e, g) = (expected-misconfigured tag found).0 h in
            (raw, ps, (first raw ps).0 e, g),
        λ (raw, ps, k, g). (expected-misconfigured tag found).1 (raw, ps, (first raw ps).1 k, g),
      ),
      (
        λ h.
            let (raw, ps, e, g) = (expected-present tag found).0 h in
            (raw, ps, (first raw ps).0 e, g),
        λ (raw, ps, k, g). (expected-present tag found).1 (raw, ps, (first raw ps).1 k, g),
      ),
    )
