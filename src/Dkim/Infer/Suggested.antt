-- ===== src/Dkim/Infer/Suggested.antt =====
-- `inferSelectorsFromSPF` of internal/probe/dkim/inference.go: which selectors an SPF record suggests.
use mailsec_probe.Common.{
  All, Some, if◌then◌else◌, Bool-cases, ◌≡◌, refl, sym, ap, ◌∙◌, subst, ◌≢◌, ◌↔◌, inl, inr, true,
  false, Option, none, some, List, [], ◌∷◌, ◌++◌, arith,
}
use mailsec_probe.Dedupe.{dedupe_by}
use mailsec_probe.Dedupe.Members.{dedupe_by-Some}
use mailsec_probe.Dkim.Infer.{
  InferenceRule, infer_selectors_from_spf, begins_spf, first_spf, targets_of, suggested, is_none,
  infer_from, on_answer,
}
use mailsec_probe.Dkim.Infer.Terms.{Matches, targets_of_iff, Adds, suggested_iff}
use mailsec_probe.DnsClient.{TxtResult, Client}
use mailsec_probe.Spf.{is_spf}
use mailsec_probe.Spf.Record.{IsSpf, is_spf_iff}
use mailsec_probe.Text.{Bytes, codes, is_empty, trim_space, to_lower, fields}

-- The first SPF record of an answer, without the white space around it.
pub record IsFirstSpf (records : List Bytes) (spf : Bytes) : Type 0 where
  pub before : List Bytes
  pub raw : Bytes
  pub after : List Bytes
  pub splits : records ≡ before ++ raw ∷ after
  pub others : All (λ r. ¬ IsSpf r) before
  pub is_first : IsSpf raw
  pub trimmed : spf ≡ trim_space raw

-- The SPF record of the domain suggests the selector: a rule that it matches adds it.
abbrev pub IsSuggested : Client → Bytes → List InferenceRule → Bytes → Type 0
IsSuggested dns domain rules sel =
    (res : TxtResult) × (dns.lookup_txt domain ≡ (res, none))
    × ((spf : Bytes) × IsFirstSpf res.records spf
        × (sel ≢ [])
        × Some (λ rule. Matches spf rule × Some (λ raw. trim_space raw ≡ sel) rule.add_selectors)
            rules)

begins_spf-is_spf : (r : Bytes) → begins_spf (trim_space r) ≡ is_spf r
unfolding is_spf
begins_spf-is_spf r = ground arith

first_spf-append :
    (before : List Bytes) (raw : Bytes) (after : List Bytes)
    → All (λ r. ¬ IsSpf r) before
    → IsSpf raw
    → first_spf (before ++ raw ∷ after) ≡ trim_space raw
unfolding first_spf
first_spf-append [] raw after h is = rw (begins_spf-is_spf raw, (is_spf_iff raw).1 is)
first_spf-append (r ∷ before) raw after h is =
    ground (arith, begins_spf-is_spf r, is_spf_iff r, first_spf-append before raw after h.1 is)

IsFirstSpf-first_spf :
    {records : List Bytes} {spf : Bytes} → IsFirstSpf records spf → first_spf records ≡ spf
IsFirstSpf-first_spf f =
    rw (f.splits, f.trimmed) (first_spf-append f.before f.raw f.after f.others f.is_first)

first_spf-IsFirstSpf :
    (records : List Bytes)
    → is_empty (first_spf records) ≡ false
    → IsFirstSpf records (first_spf records)
unfolding first_spf
first_spf-IsFirstSpf [] h = cc
first_spf-IsFirstSpf (r ∷ records) h = elim (Bool-cases (begins_spf (trim_space r))) [
  | inl here ↦ rw here (record {
    before = [];
    raw = r;
    after = records;
    splits = refl;
    others = tt;
    is_first = (is_spf_iff r).0 (sym (begins_spf-is_spf r) ∙ here);
    trimmed = refl;
  })
  | inr other ↦
      let f = first_spf-IsFirstSpf records (rw other at h) in
      rw other (record {
        before = r ∷ f.before;
        raw = f.raw;
        after = f.after;
        splits = ap (◌∷◌ r) f.splits;
        others = (λ is. absurd (cc ((is_spf_iff r).1 is, begins_spf-is_spf r, other)), f.others);
        is_first = f.is_first;
        trimmed = f.trimmed;
      })
]

IsSpf-solid : (r : Bytes) → IsSpf r → is_empty (trim_space r) ≡ false
unfolding to_lower
IsSpf-solid r is = rw is.splits (go is.version is.spelled)
  where
    go : (v : Bytes) → to_lower v ≡ codes "v=spf1" → is_empty (v ++ is.rest) ≡ false
    go [] e = cc
    go (c ∷ v) e = refl

Some-iff :
    {A : Type 0} (P Q : A → Type 0) → ((x : A) → P x ↔ Q x) → (xs : List A) → Some P xs ↔ Some Q xs
Some-iff P Q h [] = ((λ s. s), λ s. s)
Some-iff P Q h (x ∷ xs) = ground (arith, h x, Some-iff P Q h xs)

-- What a rule adds to the selectors of an SPF record.
abbrev Suggests : Bytes → Bytes → InferenceRule → Type 0
Suggests spf sel rule = Matches spf rule × Some (λ raw. trim_space raw ≡ sel) rule.add_selectors

Adds-Suggests :
    (spf sel : Bytes) (rule : InferenceRule)
    → Adds (targets_of (fields spf)) sel rule ↔ Suggests spf sel rule
Adds-Suggests spf sel rule =
    let terms = targets_of_iff (fields spf) (to_lower rule.match_include) in
    ((λ (m, a). (terms.0 m, a)), λ (m, a). (terms.1 m, a))

no_target :
    (targets : List Bytes) (sel : Bytes) (rules : List InferenceRule)
    → is_none targets ≡ true
    → ¬ Some (Adds targets sel) rules
no_target (t ∷ targets) sel rules h s = cc
no_target [] sel [] h s = s
no_target [] sel (rule ∷ rules) h (inl (hit, _)) = cc
no_target [] sel (rule ∷ rules) h (inr later) = no_target [] sel rules h later

-- What a record that is not empty leads to.
abbrev from_spf : Bytes → List InferenceRule → List Bytes
from_spf spf rules =
    if is_none (targets_of (fields spf))
    then []
    else dedupe_by trim_space (suggested (targets_of (fields spf)) rules)

from_spf_iff :
    (spf sel : Bytes) (rules : List InferenceRule)
    → Some (λ x. x ≡ sel) (from_spf spf rules) ↔ ((sel ≢ []) × Some (Suggests spf sel) rules)
from_spf_iff spf sel rules =
    let targets = targets_of (fields spf) in
    let rule = Some-iff (Adds targets sel) (Suggests spf sel) (Adds-Suggests spf sel) rules in
    elim (Bool-cases (is_none targets)) [
      | inl nil ↦
          rw nil ((λ s. absurd s), λ (_, s). absurd (no_target targets sel rules nil (rule.1 s)))
      | inr some_target ↦
          let kept = dedupe_by-Some trim_space sel (suggested targets rules) in
          let added = suggested_iff targets rules sel in
          rw some_target (
            (λ s. let (ne, a) = kept.0 s in (ne, rule.0 (added.0 a))),
            λ (ne, a). kept.1 (ne, added.1 (rule.1 a)),
          )
    ]

infer_from_iff :
    (records : List Bytes) (rules : List InferenceRule) (sel : Bytes)
    → Some (λ x. x ≡ sel) (infer_from records rules)
      ↔ ((spf : Bytes) × IsFirstSpf records spf × (sel ≢ []) × Some (Suggests spf sel) rules)
infer_from_iff records rules sel = elim (Bool-cases (is_empty (first_spf records))) [
  | inl blank ↦ rw blank (
    (λ s. absurd s),
    λ (spf, f, _, _).
        let same : trim_space f.raw ≡ first_spf records =
          sym (IsFirstSpf-first_spf f ∙ f.trimmed) in
        absurd (cc (IsSpf-solid f.raw f.is_first, same, blank)),
  )
  | inr solid ↦
      let law = from_spf_iff (first_spf records) sel rules in
      rw solid (
        (λ s.
            let (ne, a) = law.0 s in
            (first_spf records, first_spf-IsFirstSpf records solid, ne, a)),
        λ (spf, f, ne, a).
            law.1 (ne, subst (λ t. Some (Suggests t sel) rules) (sym (IsFirstSpf-first_spf f)) a),
      )
]

-- The selectors that the function returns are those that are suggested.
pub infer_selectors_from_spf_iff :
    (dns : Client) (domain sel : Bytes) (rules : List InferenceRule)
    → Some (λ x. x ≡ sel) (infer_selectors_from_spf dns domain rules)
      ↔ IsSuggested dns domain rules sel
unfolding infer_selectors_from_spf
infer_selectors_from_spf_iff dns domain sel [] =
    ((λ s. absurd s), λ (res, _, (spf, _, _, a)). absurd a)
infer_selectors_from_spf_iff dns domain sel (rule ∷ rules) = go (dns.lookup_txt domain) refl
  where
    go :
        (answer : TxtResult × Option Bytes)
        → dns.lookup_txt domain ≡ answer
        → Some (λ x. x ≡ sel) (on_answer (rule ∷ rules) (dns.lookup_txt domain))
          ↔ IsSuggested dns domain (rule ∷ rules) sel
    go (res, some e) h = rw h ((λ s. absurd s), λ (r, answered, _). absurd (cc answered))
    go (res, none) h =
        let law = infer_from_iff res.records (rule ∷ rules) sel in
        rw h (
          (λ s. (res, refl, law.0 s)),
          λ (r, answered, found).
              let same : r.records ≡ res.records = cc answered in
              law.1 (
                subst
                  (λ rs.
                    (spf : Bytes) × IsFirstSpf rs spf
                    × (sel ≢ [])
                    × Some (Suggests spf sel) (rule ∷ rules))
                  same found),
        )
