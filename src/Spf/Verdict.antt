-- ===== src/Spf/Verdict.antt =====
-- `runOne` of internal/probe/spf/spf.go, for every answer of the DNS.
use mailsec_probe.Common.{
  All, Bool-cases, ◌≡◌, refl, ap, ◌≢◌, ◌↔◌, inl, inr, Bool, false, none, List, [], ◌∷◌, ◌++◌, arith,
  Option, some,
}
use mailsec_probe.DnsClient.{TxtResult}
use mailsec_probe.Signals.{present, absent, Signal, unknown}
use mailsec_probe.Spf.{
  pass, missing, Details, Probe, is_spf, pick_spf_records, parse_spf, run_one, judge, count_records,
  observe,
}
use mailsec_probe.Spf.Record.{IsSpf, is_spf_iff}
use mailsec_probe.Text.{Bytes}

-- One record is SPF and no other is.
pub record IsOnly (records : List Bytes) (raw : Bytes) : Type 0 where
  pub before : List Bytes
  pub after : List Bytes
  pub splits : records ≡ before ++ raw ∷ after
  pub found : IsSpf raw
  pub none_before : All (λ r. ¬ IsSpf r) before
  pub none_after : All (λ r. ¬ IsSpf r) after

-- The record does not let every sender pass, and names its policy or the domain that holds it.
abbrev pub Protects : Details → Type 0
Protects d = (d.qualifier ≢ pass) × (d.qualifier ≡ missing → d.redirect ≢ [])

not-IsSpf : (r : Bytes) → is_spf r ≡ false → ¬ IsSpf r
not-IsSpf r h i = cc ((is_spf_iff r).1 i)

is_spf-false : (r : Bytes) → ¬ IsSpf r → is_spf r ≡ false
is_spf-false r h = elim (Bool-cases (is_spf r)) [
  | inl e ↦ absurd (h ((is_spf_iff r).0 e))
  | inr e ↦ e
]

pick-nil : (records : List Bytes) → pick_spf_records records ≡ [] → All (λ r. ¬ IsSpf r) records
unfolding pick_spf_records
pick-nil [] e = tt
pick-nil (r ∷ records) e = elim (Bool-cases (is_spf r)) [
  | inl yes_spf ↦ cc (rw yes_spf at e)
  | inr no_spf ↦ (not-IsSpf r no_spf, pick-nil records (rw no_spf at e))
]

pick-append :
    (before records : List Bytes)
    → All (λ r. ¬ IsSpf r) before
    → pick_spf_records (before ++ records) ≡ pick_spf_records records
unfolding pick_spf_records
pick-append [] records h = refl
pick-append (r ∷ before) records h = rw (is_spf-false r h.0) (pick-append before records h.1)

pick-All : (records : List Bytes) → All (λ r. ¬ IsSpf r) records → pick_spf_records records ≡ []
unfolding pick_spf_records
pick-All [] h = refl
pick-All (r ∷ records) h = rw (is_spf-false r h.0) (pick-All records h.1)

pick-IsOnly :
    {records : List Bytes} {raw : Bytes} → IsOnly records raw → pick_spf_records records ≡ raw ∷ []
pick-IsOnly {records} {raw} o =
    rw (o.splits, pick-append o.before (raw ∷ o.after) o.none_before)
      (unfold pick_spf_records in rw ((is_spf_iff raw).1 o.found, pick-All o.after o.none_after))

IsOnly-cons :
    {records : List Bytes} {raw : Bytes} (r : Bytes)
    → ¬ IsSpf r
    → IsOnly records raw
    → IsOnly (r ∷ records) raw
IsOnly-cons r h o = record {
  before = r ∷ o.before;
  after = o.after;
  splits = ap (◌∷◌ r) o.splits;
  found = o.found;
  none_before = (h, o.none_before);
  none_after = o.none_after;
}

IsOnly-pick :
    (records : List Bytes) {raw : Bytes} → pick_spf_records records ≡ raw ∷ [] → IsOnly records raw
unfolding pick_spf_records
IsOnly-pick [] e = cc
IsOnly-pick (r ∷ records) {raw} e = elim (Bool-cases (is_spf r)) [
  | inl yes_spf ↦
      let e' : r ∷ pick_spf_records records ≡ raw ∷ [] = rw yes_spf at e in
      let same : r ≡ raw = cc in
      record {
        before = [];
        after = records;
        splits = rw same;
        found = rw (← same) ((is_spf_iff r).0 yes_spf);
        none_before = tt;
        none_after = pick-nil records (cc);
      }
  | inr no_spf ↦ IsOnly-cons r (not-IsSpf r no_spf) (IsOnly-pick records (rw no_spf at e))
]

judge-Protects : (d : Details) → ((judge d.qualifier d.redirect).0 ≡ present) ↔ Protects d
judge-Protects d = ground arith

-- The outcome of the switch on the number of SPF records.
count-present :
    (include_raw : Bool) (spfs : List Bytes) (sig : Signal)
    → (count_records include_raw spfs sig).status ≡ present
    → (raw : Bytes) × (spfs ≡ raw ∷ []) × Protects (parse_spf raw)
count-present include_raw [] sig h = cc
count-present include_raw (raw ∷ []) sig h = (raw, refl, (judge-Protects (parse_spf raw)).0 h)
count-present include_raw (r ∷ q ∷ rs) sig h = cc

count-absent :
    (include_raw : Bool) (spfs : List Bytes) (sig : Signal)
    → (count_records include_raw spfs sig).status ≡ absent
    → spfs ≡ []
count-absent include_raw [] sig h = refl
count-absent include_raw (raw ∷ []) sig h = ground arith
count-absent include_raw (r ∷ q ∷ rs) sig h = cc

count-unknown :
    (include_raw : Bool) (spfs : List Bytes) (sig : Signal)
    → (count_records include_raw spfs sig).status ≢ unknown
count-unknown include_raw [] sig h = cc
count-unknown include_raw (raw ∷ []) sig h = ground arith
count-unknown include_raw (r ∷ q ∷ rs) sig h = cc

module _ (p : Probe) (domain : Bytes) (res : TxtResult)
    (answer : p.dns.lookup_txt domain ≡ (res, none)) where
  -- On an answer of the DNS, SPF is reported present exactly when one record of the answer is SPF,
  -- no other is, and the qualifier of that record is not pass, and is missing only beside a redirect.
  pub run_one-Protects :
      ((run_one p domain).status ≡ present)
      ↔ ((raw : Bytes) × IsOnly res.records raw × Protects (parse_spf raw))
  unfolding run_one
  run_one-Protects = rw answer (
    (λ h.
        let (raw, e, good) = count-present p.include_raw (pick_spf_records res.records) _ h in
        (raw, IsOnly-pick res.records e, good)),
    (λ (raw, only, good). rw (pick-IsOnly only) ((judge-Protects (parse_spf raw)).1 good)),
  )

  -- On an answer of the DNS, SPF is reported absent exactly when no record of it is SPF.
  pub run_one-absent : ((run_one p domain).status ≡ absent) ↔ All (λ r. ¬ IsSpf r) res.records
  unfolding run_one
  run_one-absent = rw answer (
    (λ h. pick-nil res.records (count-absent p.include_raw (pick_spf_records res.records) _ h)),
    (λ h. rw (pick-All res.records h)),
  )

observe-unknown :
    (include_raw : Bool) (domain : Bytes) (answer : TxtResult × Option Bytes)
    → (observe include_raw domain answer).status ≡ unknown
    → (e : Bytes) × (answer.1 ≡ some e)
observe-unknown include_raw domain (res, some e) h = (e, refl)
observe-unknown include_raw domain (res, none) h =
    absurd (count-unknown include_raw (pick_spf_records res.records) _ h)

observe-failed :
    (include_raw : Bool) (domain : Bytes) (answer : TxtResult × Option Bytes) {e : Bytes}
    → answer.1 ≡ some e
    → (observe include_raw domain answer).status ≡ unknown
observe-failed include_raw domain (res, some e) h = refl
observe-failed include_raw domain (res, none) h = cc

-- SPF is reported unknown exactly when the lookup failed, whatever records came with the error.
pub run_one-unknown :
    (p : Probe) (domain : Bytes)
    → ((run_one p domain).status ≡ unknown) ↔ ((e : Bytes) × ((p.dns.lookup_txt domain).1 ≡ some e))
unfolding run_one
run_one-unknown p domain = (
  observe-unknown p.include_raw domain (p.dns.lookup_txt domain),
  λ (e, h). observe-failed p.include_raw domain (p.dns.lookup_txt domain) h,
)
