-- ===== src/Dkim/Scan/Candidates.antt =====
-- The selectors that `runOne` of internal/probe/dkim/dkim.go looks up.
use mailsec_probe.Dkim.Scan.{Probe, merged, inferred_by}
use mailsec_probe.Common.{
  Some, Bool-cases, ◌≡◌, refl, sym, subst, ◌≢◌, ◌↔◌, inl, inr, true, List, [], ◌∷◌, ◌++◌,
}
use mailsec_probe.Dedupe.Members.{dedupe_by-Some, Some-append}
use mailsec_probe.Dkim.Infer.Suggested.{IsSuggested, infer_selectors_from_spf_iff}
use mailsec_probe.Text.{Bytes, trim_space}

-- The SPF record of the domain suggests the selector, where the inference is on.
abbrev pub Inferred : Probe → Bytes → Bytes → Type 0
Inferred p domain sel = (p.enable_inference ≡ true) × IsSuggested p.dns domain p.inference_rules sel

-- A selector of the run: as it is configured, where SPF suggests none; else one of those configured
-- and those suggested, without white space around it.
pub data IsCandidate (p : Probe) (domain sel : Bytes) : Type 0 where
  configured :
      ((t : Bytes) → ¬ Inferred p domain t)
      → Some (λ raw. raw ≡ sel) p.selectors
      → IsCandidate p domain sel
  trimmed :
      (t : Bytes)
      → Inferred p domain t
      → sel ≢ []
      → Some (λ raw. trim_space raw ≡ sel) p.selectors
      → IsCandidate p domain sel
  suggested :
      (t : Bytes) → Inferred p domain t → sel ≢ [] → trim_space t ≡ sel → IsCandidate p domain sel

inferred_by_iff :
    (p : Probe) (domain sel : Bytes)
    → Some (λ x. x ≡ sel) (inferred_by p domain) ↔ Inferred p domain sel
inferred_by_iff p domain sel =
    let law = infer_selectors_from_spf_iff p.dns domain sel p.inference_rules in
    elim (Bool-cases p.enable_inference) [
      | inl on ↦ rw on ((λ s. (refl, law.0 s)), λ (_, i). law.1 i)
      | inr off ↦ rw off ((λ s. absurd s), λ (h, _). absurd (cc h))
    ]

pub Some-witness :
    {P : Bytes → Type 0} (xs : List Bytes) → Some P xs → (t : Bytes) × Some (λ x. x ≡ t) xs × P t
Some-witness [] s = absurd s
Some-witness (x ∷ xs) (inl here) = (x, inl refl, here)
Some-witness (x ∷ xs) (inr later) = let (t, there, h) = Some-witness xs later in (t, inr there, h)

pub witness-Some :
    (P : Bytes → Type 0) (xs : List Bytes) (t : Bytes) → Some (λ x. x ≡ t) xs → P t → Some P xs
witness-Some P [] t s h = absurd s
witness-Some P (x ∷ xs) t (inl same) h = inl (subst P (sym same) h)
witness-Some P (x ∷ xs) t (inr later) h = inr (witness-Some P xs t later h)

-- The candidates are the selectors looked up.
pub merged_iff :
    (p : Probe) (domain sel : Bytes)
    → Some (λ x. x ≡ sel) (merged p.selectors (inferred_by p domain)) ↔ IsCandidate p domain sel
merged_iff p domain sel = go (inferred_by p domain) refl
  where
    law : (t : Bytes) → Some (λ x. x ≡ t) (inferred_by p domain) ↔ Inferred p domain t
    law t = inferred_by_iff p domain t

    go :
        (inferred : List Bytes)
        → inferred_by p domain ≡ inferred
        → Some (λ x. x ≡ sel) (merged p.selectors (inferred_by p domain)) ↔ IsCandidate p domain sel
    go [] e = rw e (
      (λ s. configured (λ t i. rw e at ((law t).1 i)) s),
      λ c. elim c [
        | configured _ s ↦ s
        | trimmed t i _ _ ↦ absurd (rw e at ((law t).1 i))
        | suggested t i _ _ ↦ absurd (rw e at ((law t).1 i))
      ],
    )
    go (u ∷ us) e =
        let first : Inferred p domain u = (law u).0 (rw e (inl refl)) in
        let kept = dedupe_by-Some trim_space sel (p.selectors ++ u ∷ us) in
        let parts = Some-append (λ raw. trim_space raw ≡ sel) p.selectors (u ∷ us) in
        rw e (
          (λ s.
              let (ne, from) = kept.0 s in
              elim (parts.0 from) [
                | inl base ↦ trimmed u first ne base
                | inr new ↦
                    let (t, there, same) = Some-witness (u ∷ us) new in
                    suggested t ((law t).0 (rw e there)) ne same
              ]),
          λ c. elim c [
            | configured none_found _ ↦ absurd (none_found u first)
            | trimmed _ _ ne base ↦ kept.1 (ne, parts.1 (inl base))
            | suggested t i ne same ↦ kept.1 (
              ne,
              parts.1 (
                  inr (
                    witness-Some (λ raw. trim_space raw ≡ sel) (u ∷ us) t (rw e at ((law t).1 i))
                      same)),
            )
          ],
        )
