-- ===== src/MtaTls/Run/Hosts.antt =====
-- `uniqueMXHosts` of internal/probe/mtatls/mtatls.go.
use mailsec_probe.Common.{
  Some, Bool-cases, ◌≡◌, ◌≢◌, ◌↔◌, inl, inr, true, List, [], ◌∷◌, map, arith,
}
use mailsec_probe.Dedupe.{mem}
use mailsec_probe.Dedupe.Laws.{Distinct, mem-dedupe_by, dedupe_by-Distinct}
use mailsec_probe.DnsClient.{MxRecord}
use mailsec_probe.MtaTls.Run.{mx_name, unique_mx_hosts}
use mailsec_probe.Text.{Bytes, codes, str_eq, is_empty, to_lower, trim_suffix}
use mailsec_probe.Text.Match.{str_eq_iff, is_empty_iff, is_empty-false}

-- The host of a record, in lower case and without a dot at its end, where that is neither empty nor
-- the root.
abbrev pub IsHostOf : List MxRecord → Bytes → Type 0
IsHostOf records h =
    (h ≢ []) × (h ≢ codes ".") × Some (λ m. trim_suffix (to_lower m.host) (codes ".") ≡ h) records

-- The hosts of the records, each once.
pub record AreHosts (records : List MxRecord) (hosts : List Bytes) : Type 0 where
  pub members : (h : Bytes) → (mem h hosts ≡ true) ↔ IsHostOf records h
  pub distinct : Distinct hosts

mx_name-member :
    (records : List MxRecord) (h : Bytes)
    → h ≢ []
    → (mem h (map (λ n. n) (map mx_name records)) ≡ true)
      ↔ ((h ≢ codes ".") × Some (λ m. trim_suffix (to_lower m.host) (codes ".") ≡ h) records)
unfolding mem
mx_name-member [] h solid = ((λ e. cc), λ (_, s). absurd s)
mx_name-member (m ∷ records) h solid =
    let name = trim_suffix (to_lower m.host) (codes ".") in
    let rest = mx_name-member records h solid in
    let root = str_eq_iff name (codes ".") in
    let same = str_eq_iff name h in
    let blank = str_eq_iff [] h in
    elim (Bool-cases (str_eq name (codes "."))) [
      | inl dot ↦ rw dot (ground (arith, rest, root.0 dot, blank))
      | inr host ↦ rw host (ground (arith, rest, root, same))
    ]

pub unique_mx_hosts-AreHosts :
    (records : List MxRecord) → AreHosts records (unique_mx_hosts records)
unfolding unique_mx_hosts
unique_mx_hosts-AreHosts records = record {
  members = λ h. elim (Bool-cases (is_empty h)) [
    | inl blank ↦ ground (arith, is_empty_iff h, mem-dedupe_by (λ n. n) h (map mx_name records))
    | inr full ↦
        let member = mx_name-member records h (is_empty-false h full) in
        let solid = is_empty-false h full in
        rw (mem-dedupe_by (λ n. n) h (map mx_name records), full)
          (
            (λ e. let (dotless, there) = member.0 e in (solid, dotless, there)),
            λ (_, dotless, there). member.1 (dotless, there),
          )
  ];
  distinct = dedupe_by-Distinct (λ n. n) (map mx_name records);
}
